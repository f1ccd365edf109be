-- ===== src/ListHead/Walk.antt =====
-- list_for_each and list_for_each_prev of src/core/sgx_list.h.
use sginx.Base.{
  ℕ, zero, suc, ◌+◌, ◌<◌, ◌≡◌, List, [], ◌∷◌, length, arith, All, reverse, reverse_aux, ◌≢◌,
}
use sginx.Base.Run.{ok}
use sginx.ListHead.{Heads, walk, list_for_each, list_for_each_prev}
use sginx.ListHead.Ring.{Absent, Linked, IsRing}

-- each step from `a` leads to the next entry, and from the last one to `b`
abbrev Steps : (ℕ → ℕ) → ℕ → List ℕ → ℕ → Type 0
Steps step a [] b = step a ≡ b
Steps step a (x ∷ xs) b = (step a ≡ x) × Steps step x xs b

walk-Steps :
    (k : ℕ) (step : ℕ → ℕ) (a head : ℕ) (xs : List ℕ)
    → Steps step a xs head
    → Absent head xs
    → length xs < k
    → walk k step head (step a) ≡ ok xs
unfolding walk
walk-Steps zero step a head xs s away m = absurd (omega arith)
walk-Steps (suc k) step a head [] s away m = ground arith
walk-Steps (suc k) step a head (x ∷ xs) s away m =
    rw (s.0, walk-Steps k step x head xs s.1 away.1 (omega arith)) (ground arith)

next-Steps : (m : Heads) (a b : ℕ) (xs : List ℕ) → Linked m a xs b → Steps m.next a xs b
next-Steps m a b [] l = l.0
next-Steps m a b (x ∷ xs) l = (l.0, next-Steps m x b xs l.2)

prev-Steps :
    (m : Heads) (a b c x : ℕ) (xs behind : List ℕ)
    → Linked m a (x ∷ xs) b
    → Steps m.prev x behind c
    → Steps m.prev b (reverse_aux xs (x ∷ behind)) c
prev-Steps m a b c x [] behind l s = (l.2.1, s)
prev-Steps m a b c x (y ∷ ys) behind l s = prev-Steps m x b c y ys (x ∷ behind) l.2 (l.2.1, s)

ring-prev_Steps :
    (m : Heads) (head : ℕ) (xs : List ℕ)
    → Linked m head xs head
    → Steps m.prev head (reverse xs) head
ring-prev_Steps m head [] l = l.1
ring-prev_Steps m head (x ∷ xs) l = prev-Steps m head head head x xs [] l l.1

All-reverse_aux :
    (P : ℕ → Type 0) (xs behind : List ℕ) → All P xs → All P behind → All P (reverse_aux xs behind)
All-reverse_aux P [] behind h k = k
All-reverse_aux P (x ∷ xs) behind h k = All-reverse_aux P xs (x ∷ behind) h.1 (h.0, k)

length-reverse_aux :
    (xs behind : List ℕ) → length (reverse_aux xs behind) ≡ length xs + length behind
length-reverse_aux [] behind = omega arith
length-reverse_aux (x ∷ xs) behind = omega (arith, length-reverse_aux xs (x ∷ behind))

-- With more rounds than the list has entries, list_for_each takes the entries in their order and
-- list_for_each_prev in the opposite order, and both end.
for_each_correct :
    (k : ℕ) (m : Heads) (head : ℕ) (xs : List ℕ)
    → IsRing m head xs
    → length xs < k
    → (list_for_each k m head ≡ ok xs) × (list_for_each_prev k m head ≡ ok (reverse xs))
unfolding list_for_each list_for_each_prev
for_each_correct k m head xs ring long =
    let away = ring.distinct.0 in
    (
      walk-Steps k m.next head head xs (next-Steps m head head xs ring.linked) away long,
      walk-Steps k m.prev head head (reverse xs) (ring-prev_Steps m head xs ring.linked)
          (All-reverse_aux (λ q. head ≢ q) xs [] away tt) (omega (arith, length-reverse_aux xs [])),
    )
