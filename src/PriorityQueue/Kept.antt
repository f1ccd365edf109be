-- ===== src/PriorityQueue/Kept.antt =====
-- What sgx_priority_queue_pop does to the order of the items, and what sgx_priority_queue_top reads.
use sginx.Base.{ℕ, ◌≤◌, ◌<◌, ◌≡◌, Bool, false, Option, some, arith, ◌==◌}
use sginx.Base.Run.{ok, Returns, Returns-map}
use sginx.PriorityQueue.{Queue, Block, top, pop}
use sginx.PriorityQueue.Order.{Ranking, IsHeap, IsValid, load-ok, root_least}
use sginx.PriorityQueue.Down.{LeftOrder}
use sginx.PriorityQueue.Pop.{pop-Popped}

module _ {ℓ} {A : Type ℓ} (cmp : A → A → Bool) (ranking : Ranking cmp) where
  open ranking use {rank}

  -- Pop keeps every left child at least its parent.
  pop-LeftOrder :
      (q : Queue A) (answer : Option (Block A))
      → IsValid q
      → 0 < q.size
      → LeftOrder (λ j. rank (q.node j)) q.size
      → Returns (λ (_, r). LeftOrder (λ j. rank (r.node j)) r.size) (pop cmp q answer)
  pop-LeftOrder q answer valid pos left =
      Returns-map (pop-Popped cmp ranking q answer valid pos)
        λ (status, r) (popped, shifted, refused). shifted.order left

  -- Pop loses the heap order whenever the right child of the root comes before the left child and
  -- before the last item, the item being kept below the root: it now comes before the root itself.
  pop_breaks_order :
      (q : Queue A) (answer : Option (Block A))
      → IsValid q
      → 3 < q.size
      → rank (q.node 3) < rank (q.node 2)
      → rank (q.node 3) < rank (q.node q.size)
      → Returns
          (λ (_, r). (rank (r.node 3) < rank (r.node 1)) × (¬ IsHeap rank r))
          (pop cmp q answer)
  pop_breaks_order q answer valid more left last =
      Returns-map (pop-Popped cmp ranking q answer valid (omega arith))
        λ (status, r) (popped, shifted, refused).
          let below : rank (r.node 3) < rank (r.node 1) =
            ground (arith, shifted.root, shifted.third) in
          (below, λ heap. absurd (ground (arith, heap 3)))

  -- On a heap that is not empty top reads the root, and no item of the queue comes before it.
  top_least :
      (q : Queue A)
      → IsValid q
      → IsHeap rank q
      → 0 < q.size
      → (top q ≡ ok (some (q.node 1)))
        × ((i : ℕ) → 0 < i → i ≤ q.size → cmp (q.node i) (q.node 1) ≡ false)
  unfolding top
  top_least q valid heap pos =
      let nonempty : (q.size == 0) ≡ false = ground arith in
      (
        rw (nonempty, load-ok q 1 (omega arith)),
        λ i p le.
            rw (ranking.agrees)
              (ground (arith, root_least (λ j. rank (q.node j)) q.size i heap p le)),
      )
