-- ===== src/PriorityQueue/Clear.antt =====
-- sgx_priority_queue_clear.
use sginx.Base.{ℕ, zero, suc, ◌+◌, ◌<◌, ◌≡◌, Bool, Option, arith, ◌==◌, Bool-cases, inl, inr}
use sginx.Base.Run.{Returns, returns, Returns-bind}
use sginx.PriorityQueue.{Queue, Block, clear_loop, clear}
use sginx.PriorityQueue.Order.{Ranking, IsValid}
use sginx.PriorityQueue.Pop.{pop_correct}

module _ {ℓ} {A : Type ℓ} (cmp : A → A → Bool) (ranking : Ranking cmp) where
  clear_loop-empty :
      (k : ℕ) (q : Queue A) (answers : ℕ → Option (Block A))
      → IsValid q
      → q.size < k
      → Returns (λ r. (r.size ≡ 0) × IsValid r) (clear_loop cmp k q answers)
  unfolding clear_loop
  clear_loop-empty zero q answers valid f = absurd (omega arith)
  clear_loop-empty (suc k) q answers valid f = elim (Bool-cases (q.size == 0)) [
    | inl done ↦ rw done (returns (ground arith, valid))
    | inr more ↦ rw more (
        Returns-bind (pop_correct cmp ranking q (answers 0) valid (ground arith))
          λ (status, r) (popped, refused).
            clear_loop-empty k r (λ i. answers (i + 1)) popped.valid (omega (arith, popped.size)))
  ]

  -- Clear of a valid queue ends with an empty, valid queue, whatever malloc answers on the way:
  -- one round for each item is enough.
  clear_empties :
      (q : Queue A) (answers : ℕ → Option (Block A))
      → IsValid q
      → Returns (λ r. (r.size ≡ 0) × IsValid r) (clear cmp q answers)
  unfolding clear
  clear_empties q answers valid = clear_loop-empty (q.size + 1) q answers valid (omega arith)
