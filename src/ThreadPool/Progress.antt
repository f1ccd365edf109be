-- ===== src/ThreadPool/Progress.antt =====
-- The thread pool does not get stuck: with jobs in the list, and while it is destroyed.
use sginx.Base.{
  ℕ, ◌<◌, ◌≡◌, ◌≢◌, ◌⊎◌, inl, inr, refl, subst, Bool, true, false, not, ◌&&◌, Option, none, some,
  List, [], ◌∷◌, arith, Bool-cases, ◌==◌, if◌then◌else◌,
}
use sginx.ThreadPool.{
  Work, Place, want_lock, looking, before_wait, waiting, woken, testing, exited, running, joining,
  Pool, Move, blocked, null_access, to, is_empty, has_exited, take, worker_at, worker_step,
  destroy_step, destroy_at, acquire, release, at_place, IsReachable,
}
use sginx.ThreadPool.Invariant.{holds, sleeps, IsAt, IsSound, OnMove}
use sginx.ThreadPool.Reach.{reachable-IsSound}
use sginx.ThreadPool.Worker.{worker-IsSound}

-- the step is one to another pool
abbrev pub Moves : Move → Type 0
Moves blocked = ⊥
Moves null_access = ⊥
Moves (to t) = Unit

-- some worker can take a step
abbrev pub SomeWorkerMoves : Pool → Type 0
SomeWorkerMoves s = (i : ℕ) × (i < s.max_num) × Moves (worker_step s i)

testing-Moves :
    (s : Pool) (i : ℕ) (shutdown : Bool) (now : List Work)
    → OnMove IsSound (if shutdown then to (release (at_place s i exited)) else take now s i)
    → Moves (if shutdown then to (release (at_place s i exited)) else take now s i)
unfolding take
testing-Moves s i true now ok = tt
testing-Moves s i false [] ok = absurd ok
testing-Moves s i false (w ∷ ws) ok = tt

-- steps of the worker with the lock, and of one that does not sleep while the lock is free
owner-Moves :
    (s : Pool) (i : ℕ) (p : Place)
    → holds p ≡ true
    → OnMove IsSound (worker_at p s i)
    → Moves (worker_at p s i)
unfolding worker_at
owner-Moves s i looking h ok = elim (Bool-cases (is_empty s.now && not s.shutdown)) [
  | inl e ↦ rw e tt
  | inr e ↦ rw e tt
]
owner-Moves s i before_wait h ok = tt
owner-Moves s i testing h ok = testing-Moves s i s.shutdown s.now ok
owner-Moves s i want_lock h ok = absurd (ground arith)
owner-Moves s i waiting h ok = absurd (ground arith)
owner-Moves s i woken h ok = absurd (ground arith)
owner-Moves s i exited h ok = absurd (ground arith)
owner-Moves s i (running w) h ok = absurd (ground arith)

free-Moves :
    (s : Pool) (i : ℕ) (p : Place)
    → holds p ≡ false
    → sleeps p ≡ false
    → p ≢ exited
    → s.lock ≡ none
    → Moves (worker_at p s i)
unfolding worker_at
free-Moves s i want_lock h up ne e = rw e tt
free-Moves s i woken h up ne e = rw e tt
free-Moves s i (running w) h up ne e = tt
free-Moves s i exited h up ne e = absurd (ne refl)
free-Moves s i looking h up ne e = absurd (ground arith)
free-Moves s i before_wait h up ne e = absurd (ground arith)
free-Moves s i testing h up ne e = absurd (ground arith)
free-Moves s i waiting h up ne e = absurd (ground arith)

awake-Moves :
    (s : Pool) (i : ℕ) (lock : Option ℕ)
    → IsSound s
    → i < s.max_num
    → sleeps (s.place i) ≡ false
    → s.place i ≢ exited
    → s.lock ≡ lock
    → SomeWorkerMoves s
unfolding worker_step
awake-Moves s i none v m up ne e =
    (i, m, free-Moves s i (s.place i) (ground (arith, v.holder i)) up ne e)
awake-Moves s i (some j) v m up ne e =
    let at : holds (s.place j) ≡ true = ground (arith, v.holder j) in
    (j, v.inside j at, owner-Moves s j (s.place j) at (worker-IsSound s j v (v.inside j at)))

-- While jobs are listed and the pool is not shut down, some worker can take
-- a step.
pub work_proceeds :
    (n : ℕ) (s : Pool)
    → IsReachable n s
    → is_empty s.now ≡ false
    → s.shutdown ≡ false
    → 0 < s.max_num
    → SomeWorkerMoves s
work_proceeds n s r more live some_workers =
    let v = reachable-IsSound n s r in
    let (i, m, up) = v.awake more some_workers in
    awake-Moves s i s.lock v m up (λ e. absurd (ground (arith, v.exits i e))) refl

-- an upper bound of the steps that a worker takes until it ends, once the pool is shut down
abbrev pub steps_left : Place → ℕ
steps_left exited = 0
steps_left testing = 1
steps_left looking = 2
steps_left (running w) = 4
steps_left p = 3

-- the worker comes nearer to its end, and the step is its own only
abbrev pub IsNearer : Pool → ℕ → ℕ → Pool → Type 0
IsNearer s i bound t =
    (steps_left (t.place i) < bound)
    × ((j : ℕ) → j ≢ i → t.place j ≡ s.place j)
    × (t.phase ≡ s.phase)

acquire-IsNearer : (s : Pool) (i : ℕ) (lock : Option ℕ) → OnMove (IsNearer s i 3) (acquire lock s i)
acquire-IsNearer s i none = (ground arith, (λ j ne. ground arith), refl)
acquire-IsNearer s i (some k) = tt

testing-IsNearer :
    (s : Pool) (i : ℕ) (shutdown : Bool)
    → shutdown ≡ true
    → OnMove
        (IsNearer s i 1)
        (if shutdown then to (release (at_place s i exited)) else take s.now s i)
testing-IsNearer s i true down = (ground arith, (λ j ne. ground arith), refl)
testing-IsNearer s i false down = absurd (ground arith)

worker_at-IsNearer :
    (s : Pool) (i : ℕ) (p : Place)
    → s.shutdown ≡ true
    → sleeps p ≡ false
    → OnMove (IsNearer s i (steps_left p)) (worker_at p s i)
unfolding worker_at
worker_at-IsNearer s i want_lock down up = acquire-IsNearer s i s.lock
worker_at-IsNearer s i woken down up = acquire-IsNearer s i s.lock
worker_at-IsNearer s i looking down up = elim (Bool-cases (is_empty s.now && not s.shutdown)) [
  | inl e ↦ absurd (ground arith)
  | inr e ↦ rw e (ground arith, (λ j ne. ground arith), refl)
]
worker_at-IsNearer s i testing down up = testing-IsNearer s i s.shutdown down
worker_at-IsNearer s i exited down up = tt
worker_at-IsNearer s i (running w) down up = (ground arith, (λ j ne. ground arith), refl)
worker_at-IsNearer s i before_wait down up = absurd (ground arith)
worker_at-IsNearer s i waiting down up = absurd (ground arith)

not_exited : (p : Place) → has_exited p ≡ false → p ≢ exited
not_exited p h e = absurd (ground arith)

-- While sgx_thread_pool_destroy joins the workers, either it or some worker can take a step, no
-- worker waits, and each step of a worker brings that worker nearer to its end, of which it is at
-- most four steps away, and leaves the other workers where they are.
pub destroy_proceeds :
    (n : ℕ) (s : Pool) (k : ℕ)
    → IsReachable n s
    → s.phase ≡ joining k
    → (Moves (destroy_step s) ⊎ SomeWorkerMoves s)
      × ((i : ℕ) → sleeps (s.place i) ≡ false)
      × ((i : ℕ) → OnMove (IsNearer s i (steps_left (s.place i))) (worker_step s i))
unfolding destroy_step destroy_at worker_step
destroy_proceeds n s k r at =
    let v = reachable-IsSound n s r in
    let (down, kept, le, done, up) : IsAt (joining k) s = subst (λ p. IsAt p s) at v.phase_sound in
    (
      elim (Bool-cases (k == s.max_num)) [
        | inl e ↦ inl (rw (at, e) tt)
        | inr e ↦ elim (Bool-cases (has_exited (s.place k))) [
          | inl over ↦ inl (rw (at, e, over) tt)
          | inr still ↦
              inr
                (awake-Moves s k s.lock v (ground arith) (up k) (not_exited (s.place k) still) refl)
        ]
      ],
      up,
      λ i. worker_at-IsNearer s i (s.place i) down (up i),
    )
