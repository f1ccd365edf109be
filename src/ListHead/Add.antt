-- ===== src/ListHead/Add.antt =====
-- __list_add, list_add and list_add_tail of src/core/sgx_list.h.
use sginx.Base.{ℕ, sym, subst, append-nil, All, List, [], ◌∷◌, ◌++◌, arith}
use sginx.ListHead.{Heads, insert_between, list_add, list_add_tail}
use sginx.ListHead.Ring.{
  Absent, AreDistinct, insert-AreDistinct, ring-ends, Linked, IsRing, last, first, Absent-last,
  Absent-first, Absent-All, Linked-frame,
}

insert_between-Linked :
    (m : Heads) (a b new : ℕ) (front back : List ℕ)
    → Linked m a (front ++ back) b
    → AreDistinct (a ∷ front ++ back)
    → Absent b (front ++ back)
    → Absent new (a ∷ b ∷ front ++ back)
    → Linked (insert_between m new (last a front) (first back b)) a (front ++ new ∷ back) b
unfolding insert_between
insert_between-Linked m a b new [] [] l d hb hn = ground arith
insert_between-Linked m a b new [] (y ∷ back) l d hb hn = (
  ground arith,
  ground arith,
  (
    ground arith,
    ground arith,
    Linked-frame m _ y b back l.2 (Absent-All _ a new (y ∷ back) d.0 hn.1.1 (λ p h k. ground arith))
        (Absent-All _ y new back d.1.0 hn.1.1.1 (λ p h k. ground arith)) (ground arith),
  ),
)
insert_between-Linked m a b new (x ∷ front) back l d hb hn =
    let before = Absent-last a x front back d.0 in
    let behind = Absent-first x b front back d.1.0 (λ e. hb.0 (sym e)) in
    (
      ground arith,
      ground arith,
      insert_between-Linked m x b new front back l.2 d.1 hb.1 (hn.1.1.0, (hn.1.0, hn.1.1.1)),
    )

insert_between-IsRing :
    (m : Heads) (new head : ℕ) (front back : List ℕ)
    → IsRing m head (front ++ back)
    → Absent new (head ∷ front ++ back)
    → IsRing (insert_between m new (last head front) (first back head)) head (front ++ new ∷ back)
insert_between-IsRing m new head front back ring fresh = record {
  linked =
      insert_between-Linked m head head new front back ring.linked ring.distinct ring.distinct.0
        (fresh.0, fresh);
  distinct = insert-AreDistinct new (head ∷ front) back ring.distinct fresh;
}

-- For a head that is not in the list, list_add puts it in front of all entries and list_add_tail
-- behind them.
pub list_add_correct :
    (m : Heads) (new head : ℕ) (xs : List ℕ)
    → IsRing m head xs
    → Absent new (head ∷ xs)
    → IsRing (list_add m new head) head (new ∷ xs)
      × IsRing (list_add_tail m new head) head (xs ++ new ∷ [])
unfolding list_add list_add_tail
list_add_correct m new head xs ring fresh =
    let ends = ring-ends m head head xs ring.linked in
    let same = sym (append-nil xs) in
    (
      rw ends.0 (insert_between-IsRing m new head [] xs ring fresh),
      rw ends.1 (
          insert_between-IsRing m new head xs [] (subst (IsRing m head) same ring)
            (subst (λ l. Absent new (head ∷ l)) same fresh)),
    )

-- a ring without the heads of another
abbrev pub IsApart : List ℕ → List ℕ → Type 0
IsApart xs ys = All (λ x. Absent x ys) xs

All-ends : (P : ℕ → Type 0) (a : ℕ) (xs : List ℕ) → All P (a ∷ xs) → P (first xs a) × P (last a xs)
All-ends P a [] h = (h.0, h.0)
All-ends P a (x ∷ xs) h = (h.1.0, (All-ends P x xs h.1).1)

insert_between-away :
    (m : Heads) (new prev next other : ℕ) (ys : List ℕ)
    → IsRing m other ys
    → Absent new (other ∷ ys)
    → Absent prev (other ∷ ys)
    → Absent next (other ∷ ys)
    → IsRing (insert_between m new prev next) other ys
unfolding insert_between
insert_between-away m new prev next other ys kept hn hp hq = record {
  linked =
      Linked-frame m _ other other ys kept.linked
        (Absent-All _ new prev (other ∷ ys) hn hp (λ p h k. ground arith))
        (Absent-All _ new next ys hn.1 hq.1 (λ p h k. ground arith)) (ground arith);
  distinct = kept.distinct;
}

-- Adding to one list leaves a list with other heads as it is.
list_add-others :
    (m : Heads) (new head other : ℕ) (xs ys : List ℕ)
    → IsRing m head xs
    → IsRing m other ys
    → IsApart (new ∷ head ∷ xs) (other ∷ ys)
    → IsRing (list_add m new head) other ys × IsRing (list_add_tail m new head) other ys
unfolding list_add list_add_tail
list_add-others m new head other xs ys ring kept apart =
    let ends = ring-ends m head head xs ring.linked in
    let away = All-ends (λ p. Absent p (other ∷ ys)) head xs apart.1 in
    (
      insert_between-away m new head (m.next head) other ys kept apart.0 apart.1.0
          (subst (λ p. Absent p (other ∷ ys)) (sym ends.0) away.0),
      insert_between-away m new (m.prev head) head other ys kept apart.0
          (subst (λ p. Absent p (other ∷ ys)) (sym ends.1) away.1) apart.1.0,
    )
