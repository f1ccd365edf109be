-- ===== src/PriorityQueue/Up.antt =====
-- priority_queue_up restores the heap order.
use sginx.Base.{ℕ, zero, suc, ◌+◌, ◌/◌, ◌≤◌, ◌<◌, ◌≡◌, ◌≢◌, inl, inr, Bool, arith, ltb, Bool-cases}
use sginx.Base.Run.{Returns, returns, Returns-map}
use sginx.PriorityQueue.{Queue, up_loop, up}
use sginx.PriorityQueue.Order.{
  Ranking, IsHeap, Moved, Moved-refl, load-ok, swapped, swap-ok, Moved-trans, Moved-swapped,
}

-- every edge but the one above `i` is in order, and so are the edges past `i`
pub record UpInv (key : ℕ → ℕ) (size i : ℕ) : Type 0 where
  pub positive : 0 < i
  pub inside : i ≤ size
  pub edges : (c : ℕ) → 1 < c → c ≤ size → c ≢ i → key (c / 2) ≤ key c
  pub bridged : (c : ℕ) → 1 < c → c ≤ size → c / 2 ≡ i → 1 < i → key (i / 2) ≤ key c

module _ {ℓ} {A : Type ℓ} (cmp : A → A → Bool) (ranking : Ranking cmp) where
  open ranking use {rank, agrees}

  abbrev pub Lifted : Queue A → Queue A → Type ℓ
  Lifted q r = Moved q r × IsHeap rank r

  UpInv-swapped :
      (q : Queue A) (i : ℕ)
      → UpInv (λ j. rank (q.node j)) q.size i
      → 1 < i
      → rank (q.node i) < rank (q.node (i / 2))
      → UpInv (λ j. rank ((swapped q i (i / 2)).node j)) q.size (i / 2)
  UpInv-swapped q i v big lower = record {
    positive = omega arith;
    inside = omega arith;
    edges = λ c p le ne. ground (arith, v.edges c, v.bridged c);
    bridged = λ c p le e more. ground (arith, v.edges c, v.edges (i / 2));
  }

  up_loop-Lifted :
      (k : ℕ) (q : Queue A) (i : ℕ)
      → UpInv (λ j. rank (q.node j)) q.size i
      → q.size < q.cells
      → i < k
      → Returns (Lifted q) (up_loop cmp k q i)
  unfolding up_loop
  up_loop-Lifted zero q i v room f = absurd (omega arith)
  up_loop-Lifted (suc k) q i v room f = elim (Bool-cases (ltb 1 i)) [
    | inl more ↦
        let inside = v.inside in
        rw (more, load-ok q i (omega arith), load-ok q (i / 2) (omega arith), agrees)
          (elim (Bool-cases (ltb (rank (q.node i)) (rank (q.node (i / 2))))) [
            | inl lower ↦
                rw (lower, swap-ok q i (i / 2) (omega arith) (omega arith))
                  (Returns-map
                    (up_loop-Lifted k (swapped q i (i / 2)) (i / 2)
                      (UpInv-swapped q i v (ground arith) (ground arith)) room (ground arith))
                    λ r s. (
                      Moved-trans q (swapped q i (i / 2)) r
                          (Moved-swapped q i (i / 2) v.positive inside (ground arith) (omega arith))
                          s.0,
                      s.1,
                    ))
            | inr higher ↦ rw higher (returns (Moved-refl q, λ c p le. ground (arith, v.edges c)))
          ])
    | inr root ↦ rw root (returns (Moved-refl q, λ c p le. ground (arith, v.edges c)))
  ]

  -- the sift never leaves the array, ends, and gives a heap of the same items
  pub up-Lifted :
      (q : Queue A) (i : ℕ)
      → UpInv (λ j. rank (q.node j)) q.size i
      → q.size < q.cells
      → Returns (Lifted q) (up cmp q i)
  unfolding up
  up-Lifted q i v room = up_loop-Lifted (i + 1) q i v room (omega arith)
