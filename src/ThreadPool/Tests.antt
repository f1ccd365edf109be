-- ===== src/ThreadPool/Tests.antt =====
-- A pool with one worker and a job, and the theorems at pools that are reached.
use sginx.Base.{ℕ, ◌<◌, ◌≡◌, ◌≢◌, ◌⊎◌, refl, true, false, none, some, [], ◌∷◌, ◌++◌, arith}
use sginx.ThreadPool.{
  Work, exited, gone, joining, Pool, Move, null_access, to, create, is_empty, worker_step, add_work,
  enqueue, destroy_step, nobody, works, adds, destroys, IsReachable, created, stepped,
}
use sginx.ThreadPool.Invariant.{holds, sleeps, OnMove}
use sginx.ThreadPool.Reach.{pool_safe, destroy_complete}
use sginx.ThreadPool.Progress.{
  Moves, SomeWorkerMoves, IsNearer, steps_left, work_proceeds, destroy_proceeds,
}

abbrev next : Move → Pool → Pool
next (to t) s = t
next _ s = s

abbrev job : Work
job = record { routine = 40; arg = 41 }

-- the pool as it is made, with a job, and with the worker in front of the job
abbrev listed : Pool
listed = next (enqueue none (create 1) job none) (create 1)

abbrev worker : Pool → Pool
worker s = next (worker_step s 0) s

abbrev destroy : Pool → Pool
destroy s = next (destroy_step s) s

abbrev about_to_take : Pool
about_to_take = worker (worker listed)

-- the pool while it is destroyed: all workers told, and the end
abbrev told : Pool
told = destroy (destroy listed)

abbrev ended : Pool
ended = worker (worker (worker told))

abbrev destroyed : Pool
destroyed = destroy (destroy (destroy (destroy ended)))

listed-IsReachable : IsReachable 1 listed
unfolding enqueue add_work
listed-IsReachable = stepped (create 1) _ created (
    adds (some 40) 41 true job none _ refl (λ e. absurd (ground arith)) (λ e. absurd (ground arith))
      (nobody (λ i m e. absurd (ground arith))) refl)

about_to_take-IsReachable : IsReachable 1 about_to_take
unfolding enqueue worker_step
about_to_take-IsReachable =
    stepped (worker listed) _ (stepped listed _ listed-IsReachable (works 0 _ (omega arith) refl))
      (works 0 _ (omega arith) refl)

told-IsReachable : IsReachable 1 told
unfolding enqueue destroy_step
told-IsReachable =
    stepped (destroy listed) _ (stepped listed _ listed-IsReachable (destroys _ refl))
      (destroys _ refl)

ended-IsReachable : IsReachable 1 ended
unfolding enqueue destroy_step worker_step
ended-IsReachable =
    let first = stepped told _ told-IsReachable (works 0 _ (omega arith) refl) in
    let second = stepped (worker told) _ first (works 0 _ (omega arith) refl) in
    stepped (worker (worker told)) _ second (works 0 _ (omega arith) refl)

destroyed-IsReachable : IsReachable 1 destroyed
unfolding enqueue destroy_step worker_step
destroyed-IsReachable =
    let first = stepped ended _ ended-IsReachable (destroys _ refl) in
    let second = stepped (destroy ended) _ first (destroys _ refl) in
    let third = stepped (destroy (destroy ended)) _ second (destroys _ refl) in
    stepped (destroy (destroy (destroy ended))) _ third (destroys _ refl)

destroyed_test : destroyed.dropped ≡ job ∷ []
unfolding enqueue destroy_step worker_step
destroyed_test = refl

pool_safe_example :
    ((i j : ℕ)
      → holds (about_to_take.place i) ≡ true
      → holds (about_to_take.place j) ≡ true
      → i ≡ j)
    × ((i : ℕ) → i < about_to_take.max_num → worker_step about_to_take i ≢ null_access)
    × (about_to_take.added ≡ about_to_take.taken ++ about_to_take.dropped ++ about_to_take.now)
pool_safe_example = pool_safe 1 about_to_take about_to_take-IsReachable

destroyed_phase : destroyed.phase ≡ gone
unfolding enqueue destroy_step worker_step
destroyed_phase = refl

destroy_complete_example :
    ((i : ℕ) → i < destroyed.max_num → destroyed.place i ≡ exited)
    × (destroyed.now ≡ [])
    × (destroyed.added ≡ destroyed.taken ++ destroyed.dropped)
destroy_complete_example = destroy_complete 1 destroyed destroyed-IsReachable destroyed_phase

listed_state : (is_empty listed.now ≡ false) × (listed.shutdown ≡ false) × (0 < listed.max_num)
unfolding enqueue
listed_state = (refl, refl, omega arith)

work_proceeds_example : SomeWorkerMoves listed
work_proceeds_example =
    work_proceeds 1 listed listed-IsReachable listed_state.0 listed_state.1 listed_state.2

told_phase : told.phase ≡ joining 0
unfolding enqueue destroy_step
told_phase = refl

destroy_proceeds_example :
    (Moves (destroy_step told) ⊎ SomeWorkerMoves told)
    × ((i : ℕ) → sleeps (told.place i) ≡ false)
    × ((i : ℕ) → OnMove (IsNearer told i (steps_left (told.place i))) (worker_step told i))
destroy_proceeds_example = destroy_proceeds 1 told 0 told-IsReachable told_phase
