-- ===== src/PriorityQueue/Pop.antt =====
-- sgx_priority_queue_top and sgx_priority_queue_pop.
use sginx.Base.{
  ℕ, suc, ◌+◌, ◌-◌, ◌/◌, ◌^◌, ◌≤◌, ◌<◌, ◌≡◌, ◌⊎◌, refl, inl, inr, Bool, true, false, ◌&&◌, Option,
  none, some, ◌∷◌, arith, ltb, leb, ◌==◌, Bool-cases, ap,
}
use sginx.Base.Run.{ok, Returns, returns, Returns-map, Returns-bind}
use sginx.PriorityQueue.{
  Queue, Block, Status, sgx_ok, failed, ptr, word, drop_last, shrink, top, pop,
}
use sginx.PriorityQueue.Items.{count, one_if, count_congr, swap-SameItems}
use sginx.PriorityQueue.Order.{Ranking, IsValid, load-ok, swapped, swap-ok}
use sginx.PriorityQueue.Push.{resized, resize-ok}
use sginx.PriorityQueue.Down.{LeftOrder, DownInv, Sunk, down-Sunk}

-- `r` has the items of `q` in the same cells; its array may be another
record Kept {ℓ} {A : Type ℓ} (q r : Queue A) : Type ℓ where
  size : r.size ≡ q.size
  node : (i : ℕ) → i ≤ q.size → r.node i ≡ q.node i
  valid : IsValid r
  max_size : r.max_size ≤ q.max_size
  frees : (r.frees ≡ q.frees) ⊎ (r.frees ≡ ptr q.block 0 ∷ q.frees)

-- a failed pop has met a malloc that refused
abbrev pub Refused {ℓ} : {A : Type ℓ} → Status → Option (Block A) → Type ℓ
Refused status answer = status ≡ failed → answer ≡ none

module _ {ℓ} {A : Type ℓ} where
  -- the test of the code that shrinks
  abbrev is_sparse : Queue A → Bool
  is_sparse q = ltb 0 q.size && leb q.size (word (q.max_size + 2 ^ 64 - 1) / 4)

  sparse_room : (q : Queue A) → IsValid q → is_sparse q ≡ true → q.size < q.max_size / 2
  sparse_room q valid sparse = ground arith

  Kept-refl : (q : Queue A) → IsValid q → Kept q q
  Kept-refl q valid = record {
    size = refl;
    node = λ i le. refl;
    valid = valid;
    max_size = omega arith;
    frees = inl refl;
  }

  Kept-resized :
      (q : Queue A) (b : Block A)
      → IsValid q
      → q.size < q.max_size / 2
      → Kept q (resized q (q.max_size / 2) b)
  Kept-resized q b valid room = record {
    size = refl;
    node = λ i le. ground arith;
    valid = omega arith;
    max_size = omega arith;
    frees = inr refl;
  }

  shrink-Kept :
      (q : Queue A) (answer : Option (Block A))
      → IsValid q
      → Returns (λ (status, r). Kept q r × Refused status answer) (shrink q answer)
  unfolding shrink
  shrink-Kept q none valid = elim (Bool-cases (is_sparse q)) [
    | inl sparse ↦ rw sparse (returns (Kept-refl q valid, λ e. refl))
    | inr dense ↦ rw dense (returns (Kept-refl q valid, λ e. refl))
  ]
  shrink-Kept q (some b) valid = elim (Bool-cases (is_sparse q)) [
    | inl sparse ↦
        let room = sparse_room q valid sparse in
        rw (sparse, resize-ok q (q.max_size / 2) b (omega arith) room (omega arith))
          (returns (Kept-resized q b valid room, λ e. cc))
    | inr dense ↦ rw dense (returns (Kept-refl q valid, λ e. cc))
  ]

-- what pop leaves behind, in the state before (`q`) and after (`r`)
pub record Popped {ℓ} {A : Type ℓ} (q r : Queue A) : Type ℓ where
  pub size : r.size + 1 ≡ q.size
  pub items :
      (test : A → Bool)
      → count test r.node r.size + one_if (test (q.node 1)) ≡ count test q.node q.size
  pub valid : IsValid r
  pub max_size : r.max_size ≤ q.max_size
  pub frees :
      (r.frees ≡ ptr q.block q.size ∷ q.frees)
      ⊎ (r.frees ≡ ptr q.block 0 ∷ ptr q.block q.size ∷ q.frees)

-- how pop moves the items about
pub record Shifted {ℓ} {A : Type ℓ} (rank : A → ℕ) (q r : Queue A) : Type ℓ where
  pub order : LeftOrder (λ j. rank (q.node j)) q.size → LeftOrder (λ j. rank (r.node j)) r.size
  pub root : 3 ≤ r.size → (r.node 1 ≡ q.node q.size) ⊎ (r.node 1 ≡ q.node 2)
  pub third : 3 ≤ r.size → r.node 3 ≡ q.node 3

module _ {ℓ} {A : Type ℓ} (cmp : A → A → Bool) (ranking : Ranking cmp) where
  open ranking use {rank}

  -- the queue that pop hands to the sift: the last item is at the root
  abbrev cut : Queue A → Queue A
  cut q = drop_last (swapped q 1 q.size)

  count-cut :
      (q : Queue A) (n : ℕ) (test : A → Bool)
      → q.size ≡ suc n
      → count test (cut q).node n + one_if (test (q.node 1)) ≡ count test q.node (suc n)
  unfolding count
  count-cut q n test e = ground (
    arith,
    swap-SameItems q.node (suc n) 1 (suc n) (omega arith) (omega arith) (omega arith) (omega arith)
        test,
  )

  DownInv-cut :
      (q : Queue A)
      → LeftOrder (λ j. rank (q.node j)) q.size
      → DownInv (λ j. rank ((cut q).node j)) (q.size - 1) 1
  DownInv-cut q left = record {
    edges = λ c p le even ne. ground (arith, left c);
    bridged = λ le p. absurd (omega arith);
  }

  Popped-Kept : (q r s : Queue A) → 0 < q.size → Sunk rank (cut q) 1 r → Kept r s → Popped q s
  Popped-Kept q r s pos sunk kept = record {
    size = ground arith;
    items = λ test.
        let e : q.size ≡ suc (q.size - 1) = omega arith in
        let same = count_congr test r.node s.node r.size kept.node in
        let moved = sunk.moved.same test in
        let cut_items = count-cut q (q.size - 1) test e in
        let sizes : r.size ≡ q.size - 1 = sunk.moved.size in
        let before : count test s.node s.size ≡ count test (cut q).node (q.size - 1) =
          cc (kept.size) in
        omega (arith, before, cut_items, ap (count test q.node) e);
    valid = kept.valid;
    max_size = omega (arith, kept.max_size, sunk.moved.max_size);
    frees = ground arith;
  }

  Shifted-Kept :
      (q r s : Queue A) → 0 < q.size → Sunk rank (cut q) 1 r → Kept r s → Shifted rank q s
  Shifted-Kept q r s pos sunk kept = record {
    order = λ left c p le even.
        ground (arith, kept.node c, kept.node (c / 2), sunk.order (DownInv-cut q left) c);
    root = λ le. ground (arith, kept.node 1, sunk.root);
    third = λ le. ground (arith, kept.node 3, sunk.odd 3);
  }

  pub pop-Popped :
      (q : Queue A) (answer : Option (Block A))
      → IsValid q
      → 0 < q.size
      → Returns
          (λ (status, r). Popped q r × Shifted rank q r × Refused status answer)
          (pop cmp q answer)
  unfolding pop
  pop-Popped q answer valid pos =
      let nonempty : (q.size == 0) ≡ false = ground arith in
      rw (nonempty, swap-ok q 1 q.size (omega arith) (omega arith))
        (Returns-bind
          (down-Sunk cmp ranking (cut q) 1 (record { room = omega arith; small = omega arith })
            (omega arith) (omega arith))
          λ (_, r) sunk. Returns-map (shrink-Kept r answer (ground arith)) λ (_, s) (kept, refused).
            (Popped-Kept q r s pos sunk kept, Shifted-Kept q r s pos sunk kept, refused))

  -- Pop of a valid non-empty queue, in whatever order its items are, stays inside the array and
  -- returns, whatever malloc answers. Exactly the item at the root is gone, the queue is valid
  -- again, and the call of free was given an address inside the block, `size` cells from its start.
  pub pop_correct :
      (q : Queue A) (answer : Option (Block A))
      → IsValid q
      → 0 < q.size
      → Returns (λ (status, r). Popped q r × Refused status answer) (pop cmp q answer)
  pop_correct q answer valid pos =
      Returns-map (pop-Popped q answer valid pos)
        λ (status, r) (popped, shifted, refused). (popped, refused)

module _ {ℓ} {A : Type ℓ} (cmp : A → A → Bool) where
  -- Pop of an empty queue succeeds and changes nothing.
  pub pop-empty :
      (q : Queue A) (answer : Option (Block A)) → q.size ≡ 0 → pop cmp q answer ≡ ok (sgx_ok, q)
  unfolding pop
  pop-empty q answer e = ground arith

module _ {ℓ} {A : Type ℓ} where
  pub top-ok : (q : Queue A) → IsValid q → 0 < q.size → top q ≡ ok (some (q.node 1))
  unfolding top
  top-ok q valid pos =
      let nonempty : (q.size == 0) ≡ false = ground arith in
      rw (nonempty, load-ok q 1 (omega arith))
