-- ===== src/ListHead/Del.antt =====
-- __list_del and list_del of src/core/sgx_list.h.
use sginx.Base.{ℕ, ◌≡◌, sym, List, [], ◌∷◌, ◌++◌, arith}
use sginx.ListHead.{Heads, join, list_del}
use sginx.ListHead.Ring.{
  Absent, AreDistinct, Linked, IsRing, last, first, Absent-last, Absent-first, Absent-All,
  remove-AreDistinct, Linked-frame,
}

-- the neighbours of an entry, and the chain without it
join-Linked :
    (m : Heads) (a b x : ℕ) (front back : List ℕ)
    → Linked m a (front ++ x ∷ back) b
    → AreDistinct (a ∷ front ++ back)
    → Absent b (front ++ back)
    → Linked (join m (last a front) (first back b)) a (front ++ back) b
unfolding join
join-Linked m a b x [] [] l d hb = ground arith
join-Linked m a b x [] (y ∷ back) l d hb = (
  ground arith,
  ground arith,
  Linked-frame m _ y b back l.2.2 (Absent-All _ a a (y ∷ back) d.0 d.0 (λ p h k. ground arith))
      (Absent-All _ y y back d.1.0 d.1.0 (λ p h k. ground arith)) (ground arith),
)
join-Linked m a b x (y ∷ front) back l d hb =
    let before = Absent-last a y front back d.0 in
    let behind = Absent-first y b front back d.1.0 (λ e. hb.0 (sym e)) in
    (ground arith, ground arith, join-Linked m y b x front back l.2 d.1 hb.1)

neighbours :
    (m : Heads) (a b x : ℕ) (front back : List ℕ)
    → Linked m a (front ++ x ∷ back) b
    → (m.prev x ≡ last a front) × (m.next x ≡ first back b)
neighbours m a b x [] [] l = (l.1, l.2.0)
neighbours m a b x [] (y ∷ back) l = (l.1, l.2.0)
neighbours m a b x (y ∷ front) back l = neighbours m y b x front back l.2

-- list_del takes an entry out of its list wherever it stands. The fields of the entry itself
-- still point at the neighbours it had.
pub list_del_correct :
    (m : Heads) (head x : ℕ) (front back : List ℕ)
    → IsRing m head (front ++ x ∷ back)
    → IsRing (list_del m x) head (front ++ back)
      × ((list_del m x).next x ≡ m.next x)
      × ((list_del m x).prev x ≡ m.prev x)
unfolding list_del join
list_del_correct m head x front back ring =
    let sides = neighbours m head head x front back ring.linked in
    let (others, away) = remove-AreDistinct x (head ∷ front) back ring.distinct in
    let before = Absent-last x head front back away in
    let behind = Absent-first x head front back away.1 away.0 in
    (
      rw (sides.0, sides.1)
          (record {
            linked = join-Linked m head head x front back ring.linked others others.0;
            distinct = others;
          }),
      ground arith,
      ground arith,
    )
