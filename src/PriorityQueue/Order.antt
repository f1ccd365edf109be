-- ===== src/PriorityQueue/Order.antt =====
-- The heap order, and what a comparator must be for it: an order by some rank.
use sginx.Base.{
  ℕ, suc, zero, ◌-◌, ◌/◌, ◌^◌, ◌≤◌, ◌<◌, ◌≡◌, refl, ◌∙◌, Bool, arith, ltb, lt→ltb, write,
}
use sginx.Base.Run.{ok}
use sginx.PriorityQueue.{Queue, load, swap, signed_rank, greater}
use sginx.PriorityQueue.Items.{SameItems, swap-SameItems}

-- `rank` explains the comparator: the smaller rank comes first.
pub record Ranking {ℓ} {A : Type ℓ} (cmp : A → A → Bool) : Type ℓ where
  pub rank : A → ℕ
  pub agrees : (a b : A) → cmp a b ≡ ltb (rank a) (rank b)

-- the library's own comparator: the greater int comes first
pub greater-Ranking : Ranking greater
unfolding greater
greater-Ranking = record { rank = λ x. 2 ^ 32 - signed_rank x; agrees = λ a b. ground arith }

-- every node is at least its parent, in the cells 1 to `size`
abbrev pub HeapOrder : (ℕ → ℕ) → ℕ → Type 0
HeapOrder key size = (c : ℕ) → 1 < c → c ≤ size → key (c / 2) ≤ key c

abbrev pub IsHeap {ℓ} : {A : Type ℓ} → (A → ℕ) → Queue A → Type 0
IsHeap rank q = HeapOrder (λ i. rank (q.node i)) q.size

-- The room of the array: `size + 1` cells are in use, and the byte counts do not wrap.
pub record IsValid {ℓ} {A : Type ℓ} (q : Queue A) : Type 0 where
  pub room : q.size < q.max_size
  pub allocated : q.max_size ≤ q.cells
  pub small : q.max_size < 2 ^ 60

-- `r` is `q` with its items moved about
pub record Moved {ℓ} {A : Type ℓ} (q r : Queue A) : Type ℓ where
  pub size : r.size ≡ q.size
  pub max_size : r.max_size ≡ q.max_size
  pub cells : r.cells ≡ q.cells
  pub block : r.block ≡ q.block
  pub frees : r.frees ≡ q.frees
  pub same : SameItems q.size q.node r.node

module _ {ℓ} {A : Type ℓ} where
  pub Moved-refl : (q : Queue A) → Moved q q
  Moved-refl q = record {
    size = refl;
    max_size = refl;
    cells = refl;
    block = refl;
    frees = refl;
    same = λ test. refl;
  }

  pub load-ok : (q : Queue A) (i : ℕ) → i < q.cells → load q i ≡ ok (q.node i)
  unfolding load
  load-ok q i h = rw (lt→ltb i q.cells h)

  abbrev pub swapped : Queue A → ℕ → ℕ → Queue A
  swapped q x y = record q { node = write (write q.node x (q.node y)) y (q.node x) }

  pub swap-ok :
      (q : Queue A) (x y : ℕ) → x < q.cells → y < q.cells → swap q x y ≡ ok (swapped q x y)
  unfolding swap
  swap-ok q x y hx hy = rw (load-ok q x hx, load-ok q y hy)

  pub Moved-trans : (q r s : Queue A) → Moved q r → Moved r s → Moved q s
  Moved-trans q r s m n = record {
    size = n.size ∙ m.size;
    max_size = n.max_size ∙ m.max_size;
    cells = n.cells ∙ m.cells;
    block = n.block ∙ m.block;
    frees = n.frees ∙ m.frees;
    same = λ test. cc (n.same test, m.same test);
  }

  pub Moved-swapped :
      (q : Queue A) (x y : ℕ) → 0 < x → x ≤ q.size → 0 < y → y ≤ q.size → Moved q (swapped q x y)
  Moved-swapped q x y px lx py ly = record {
    size = refl;
    max_size = refl;
    cells = refl;
    block = refl;
    frees = refl;
    same = swap-SameItems q.node q.size x y px lx py ly;
  }

root_least_below :
    (key : ℕ → ℕ) (size k i : ℕ) → HeapOrder key size → i < k → 0 < i → i ≤ size → key 1 ≤ key i
root_least_below key size zero i h f p le = absurd (omega arith)
root_least_below key size (suc k) i h f p le =
    ground (arith, h i, root_least_below key size k (i / 2) h)

-- the root of a heap is a least item
pub root_least : (key : ℕ → ℕ) (size i : ℕ) → HeapOrder key size → 0 < i → i ≤ size → key 1 ≤ key i
root_least key size i h p le = root_least_below key size (suc i) i h (omega arith) p le
