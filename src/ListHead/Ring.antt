-- ===== src/ListHead/Ring.antt =====
-- Rings of list heads: which memory holds which list.
use sginx.Base.{sym, refl, true, ◌↔◌, ◌∙◌, ℕ, ◌≡◌, ◌≢◌, List, [], ◌∷◌, ◌++◌, All, arith}
use sginx.ListHead.{Heads, init_list_head, list_empty}

-- `p` is none of the entries
abbrev pub Absent : ℕ → List ℕ → Type 0
Absent p xs = All (λ q. p ≢ q) xs

abbrev pub AreDistinct : List ℕ → Type 0
AreDistinct [] = Unit
AreDistinct (x ∷ xs) = Absent x xs × AreDistinct xs

-- the heads `xs` stand between `a` and `b`, linked in both directions
abbrev pub Linked : Heads → ℕ → List ℕ → ℕ → Type 0
Linked m a [] b = (m.next a ≡ b) × (m.prev b ≡ a)
Linked m a (x ∷ xs) b = (m.next a ≡ x) × (m.prev x ≡ a) × Linked m x xs b

-- the list at `head` has the entries `xs`
pub record IsRing (m : Heads) (head : ℕ) (xs : List ℕ) : Type 0 where
  pub linked : Linked m head xs head
  pub distinct : AreDistinct (head ∷ xs)

-- the head before what follows `front`, and the head behind what precedes `back`
abbrev pub last : ℕ → List ℕ → ℕ
last a [] = a
last a (x ∷ front) = last x front

abbrev pub first : List ℕ → ℕ → ℕ
first [] b = b
first (y ∷ back) b = y

pub Absent-last : (p x : ℕ) (front back : List ℕ) → Absent p (x ∷ front ++ back) → p ≢ last x front
Absent-last p x [] back h = h.0
Absent-last p x (y ∷ front) back h = Absent-last p y front back h.1

pub Absent-first :
    (p b : ℕ) (front back : List ℕ) → Absent p (front ++ back) → p ≢ b → p ≢ first back b
Absent-first p b [] [] h other = other
Absent-first p b [] (y ∷ back) h other = h.0
Absent-first p b (x ∷ front) back h other = Absent-first p b front back h.1 other

-- what holds away from two heads holds of all entries of a list without them
pub Absent-All {κ} :
    (P : ℕ → Type κ) (u v : ℕ) (xs : List ℕ)
    → Absent u xs
    → Absent v xs
    → ((p : ℕ) → u ≢ p → v ≢ p → P p)
    → All P xs
Absent-All P u v [] hu hv away = tt
Absent-All P u v (x ∷ xs) hu hv away = (away x hu.0 hv.0, Absent-All P u v xs hu.1 hv.1 away)

-- links to and from other heads may change
pub Linked-frame :
    (m m' : Heads) (a b : ℕ) (xs : List ℕ)
    → Linked m a xs b
    → All (λ p. m'.next p ≡ m.next p) (a ∷ xs)
    → All (λ p. m'.prev p ≡ m.prev p) xs
    → m'.prev b ≡ m.prev b
    → Linked m' a xs b
Linked-frame m m' a b [] l hn hp e = (hn.0 ∙ l.0, e ∙ l.1)
Linked-frame m m' a b (x ∷ xs) l hn hp e =
    (hn.0 ∙ l.0, hp.0 ∙ l.1, Linked-frame m m' x b xs l.2 hn.1 hp.1 e)

ring-empty :
    (m : Heads) (head : ℕ) (xs : List ℕ)
    → Linked m head xs head
    → AreDistinct (head ∷ xs)
    → (list_empty m head ≡ true ↔ xs ≡ [])
unfolding list_empty
ring-empty m head [] l d = (λ e. refl, λ e. ground arith)
ring-empty m head (x ∷ xs) l d = (λ e. absurd (ground arith), λ e. absurd (ground arith))

-- A head that was initialised holds the empty list, and list_empty answers whether a list is empty.
init-list_empty :
    (m : Heads) (head : ℕ) (xs : List ℕ)
    → IsRing (init_list_head m head) head []
      × (IsRing m head xs → (list_empty m head ≡ true ↔ xs ≡ []))
unfolding init_list_head list_empty
init-list_empty m head xs = (
  record { linked = ground arith; distinct = (tt, tt) },
  λ ring. ring-empty m head xs ring.linked ring.distinct,
)

-- what a ring says of the heads next to its own
pub ring-ends :
    (m : Heads) (a b : ℕ) (xs : List ℕ)
    → Linked m a xs b
    → (m.next a ≡ first xs b) × (m.prev b ≡ last a xs)
ring-ends m a b [] l = l
ring-ends m a b (x ∷ xs) l = (l.0, (ring-ends m x b xs l.2).1)

-- an entry more, or one fewer
Absent-insert :
    (p new : ℕ) (front back : List ℕ)
    → p ≢ new
    → Absent p (front ++ back)
    → Absent p (front ++ new ∷ back)
Absent-insert p new [] back other h = (other, h)
Absent-insert p new (x ∷ front) back other h = (h.0, Absent-insert p new front back other h.1)

pub Absent-remove :
    (p x : ℕ) (front back : List ℕ)
    → Absent p (front ++ x ∷ back)
    → (p ≢ x) × Absent p (front ++ back)
Absent-remove p x [] back h = h
Absent-remove p x (y ∷ front) back h =
    let rest = Absent-remove p x front back h.1 in (rest.0, (h.0, rest.1))

pub insert-AreDistinct :
    (new : ℕ) (front back : List ℕ)
    → AreDistinct (front ++ back)
    → Absent new (front ++ back)
    → AreDistinct (front ++ new ∷ back)
insert-AreDistinct new [] back d h = (h, d)
insert-AreDistinct new (x ∷ front) back d h = (
  Absent-insert x new front back (λ e. h.0 (sym e)) d.0,
  insert-AreDistinct new front back d.1 h.1,
)

pub remove-AreDistinct :
    (x : ℕ) (front back : List ℕ)
    → AreDistinct (front ++ x ∷ back)
    → AreDistinct (front ++ back) × Absent x (front ++ back)
remove-AreDistinct x [] back d = (d.1, d.0)
remove-AreDistinct x (y ∷ front) back d =
    let (other, away) = Absent-remove y x front back d.0 in
    let rest = remove-AreDistinct x front back d.1 in
    ((away, rest.0), ((λ e. other (sym e)), rest.1))
