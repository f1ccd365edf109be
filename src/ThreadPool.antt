-- ===== src/ThreadPool.antt =====
-- src/test/sgx_thread_pool.c: the thread pool, as a step relation on its threads.
-- A worker's step is what it does up to its next access of a variable that another thread may
-- change meanwhile. `shutdown` is written without the lock, so a worker that holds the lock takes
-- several steps. The part of sgx_thread_pool_add_work under the lock is one step: all that it
-- touches is otherwise touched under the lock, or after the workers are gone. POSIX is outside the
-- source: a signal wakes one waiting thread if there is one, a broadcast wakes all, and a wait may
-- end without a signal. Failed calls of create end the program and are left out.
pub mod Invariant
pub mod Worker
pub mod Others
pub mod Destroy
pub mod Reach
pub mod Progress
mod Tests
use sginx.Base.{
  ℕ, ◌+◌, ◌<◌, ◌≡◌, ◌≢◌, Bool, true, false, not, ◌&&◌, Option, none, some, List, [], ◌∷◌, ◌++◌,
  ◌==◌, if◌then◌else◌, write,
}

-- sgx_work_list, less the link; both are addresses
pub record Work : Type 0 where
  pub routine : ℕ
  pub arg : ℕ

-- Where a worker stands in sgx_thread_routine: before pthread_mutex_lock, at the test of the inner
-- loop, before and in pthread_cond_wait, woken but without the lock, at the test of `shutdown`
-- behind the loop, in a job, behind pthread_exit.
pub data Place : Type 0 where
  want_lock looking before_wait waiting woken testing exited : Place
  running : Work → Place

-- Where sgx_thread_pool_destroy stands: not called, `shutdown` set, at the join of a thread, at the
-- loop that frees the rest of the list, returned.
pub data Phase : Type 0 where
  idle flagged draining gone : Phase
  joining : ℕ → Phase

-- The pool, its threads, and records of the jobs that were added, taken, and freed without a run.
pub record Pool : Type 0 where
  pub shutdown : Bool
  pub max_num : ℕ
  pub now : List Work
  pub lock : Option ℕ
  pub place : ℕ → Place
  pub phase : Phase
  pub added : List Work
  pub taken : List Work
  pub dropped : List Work

-- A thread cannot go on, follows a null pointer, or goes on.
pub data Move : Type 0 where
  blocked null_access : Move
  to : Pool → Move

-- sgx_thread_pool_create
abbrev pub create : ℕ → Pool
create sgx_max_num = record {
  shutdown = false;
  max_num = sgx_max_num;
  now = [];
  lock = none;
  place = λ i. want_lock;
  phase = idle;
  added = [];
  taken = [];
  dropped = [];
}

-- the worker goes to another place
abbrev pub at_place : Pool → ℕ → Place → Pool
at_place s i p = record s { place = write s.place i p }

-- pthread_mutex_lock, which blocks while a thread has the lock
abbrev pub acquire : Option ℕ → Pool → ℕ → Move
acquire none s i = to (record (at_place s i looking) { lock = some i })
acquire (some j) s i = blocked

abbrev pub release : Pool → Pool
release s = record s { lock = none }

abbrev pub is_empty : List Work → Bool
is_empty [] = true
is_empty (w ∷ ws) = false

-- `sgx_work = now; now = now -> next;`, and the unlock
unfoldable pub take : List Work → Pool → ℕ → Move
take [] s i = null_access
take (w ∷ ws) s i =
    to (release (record (at_place s i (running w)) { now = ws; taken = s.taken ++ w ∷ [] }))

-- sgx_thread_routine
unfoldable pub worker_at : Place → Pool → ℕ → Move
unfolding take
worker_at want_lock s i = acquire s.lock s i
worker_at looking s i =
    if is_empty s.now && not s.shutdown
    then to (at_place s i before_wait)
    else to (at_place s i testing)
worker_at before_wait s i = to (release (at_place s i waiting))
worker_at waiting s i = blocked
worker_at woken s i = acquire s.lock s i
worker_at testing s i = if s.shutdown then to (release (at_place s i exited)) else take s.now s i
worker_at exited s i = blocked
worker_at (running w) s i = to (at_place s i want_lock)

unfoldable pub worker_step : Pool → ℕ → Move
unfolding worker_at
worker_step s i = worker_at (s.place i) s i

-- `sgx_now -> next = sgx_work` behind the last entry
unfoldable pub link_last : List Work → Work → List Work
link_last [] w = w ∷ []
link_last (v ∷ vs) w = v ∷ link_last vs w

-- pthread_cond_signal, with the thread that POSIX picks
abbrev pub signal : Option ℕ → Pool → Pool
signal none s = s
signal (some i) s = at_place s i woken

-- the part of sgx_thread_pool_add_work under the lock
unfoldable pub enqueue : Option ℕ → Pool → Work → Option ℕ → Move
unfolding link_last
enqueue none s w chosen =
    to (signal chosen (record s { now = link_last s.now w; added = s.added ++ w ∷ [] }))
enqueue (some j) s w chosen = blocked

-- what the call of sgx_thread_pool_add_work does: `refused` is the return of -1
pub data Request : Type 0 where
  refused : Request
  enqueues : Work → Request

-- the tests of sgx_thread_pool_add_work: the routine may be NULL, and malloc may refuse
unfoldable pub add_work : (routine : Option ℕ) (arg : ℕ) (answer : Bool) → Request
add_work none arg answer = refused
add_work (some r) arg false = refused
add_work (some r) arg true = enqueues (record { routine = r; arg = arg })

-- pthread_cond_broadcast, for one thread
abbrev pub wake : Place → Place
wake waiting = woken
wake p = p

abbrev pub has_exited : Place → Bool
has_exited exited = true
has_exited p = false

abbrev pub broadcast : Option ℕ → Pool → Move
broadcast none s = to (record s { place = λ i. wake (s.place i); phase = joining 0 })
broadcast (some j) s = blocked

-- a round of the loop that frees the list
abbrev pub drain : List Work → Pool → Move
drain [] s = to (record s { phase = gone })
drain (w ∷ ws) s = to (record s { now = ws; dropped = s.dropped ++ w ∷ [] })

-- sgx_thread_pool_destroy
unfoldable pub destroy_at : Phase → Pool → Move
destroy_at idle s = if s.shutdown then to s else to (record s { shutdown = true; phase = flagged })
destroy_at flagged s = broadcast s.lock s
destroy_at (joining k) s =
    if k == s.max_num
    then to (record s { phase = draining })
    else if has_exited (s.place k)
    then to (record s { phase = joining (k + 1) })
    else blocked
destroy_at draining s = drain s.now s
destroy_at gone s = blocked

unfoldable pub destroy_step : Pool → Move
unfolding destroy_at
destroy_step s = destroy_at s.phase s

-- the thread that a signal may pick: a waiting one, and none only when no worker waits
pub data MayPick (s : Pool) : Option ℕ → Type 0 where
  waiter : (i : ℕ) → i < s.max_num → s.place i ≡ waiting → MayPick s (some i)
  nobody : ((i : ℕ) → i < s.max_num → s.place i ≢ waiting) → MayPick s none

-- A step of some thread. Work is not added any more once the workers were joined.
pub data Step (s : Pool) : Pool → Type 0 where
  works : (i : ℕ) (t : Pool) → i < s.max_num → worker_step s i ≡ to t → Step s t
  wakes : (i : ℕ) → i < s.max_num → s.place i ≡ waiting → Step s (at_place s i woken)
  adds :
      (routine : Option ℕ) (arg : ℕ) (answer : Bool) (w : Work) (chosen : Option ℕ) (t : Pool)
      → add_work routine arg answer ≡ enqueues w
      → s.phase ≢ draining
      → s.phase ≢ gone
      → MayPick s chosen
      → enqueue s.lock s w chosen ≡ to t
      → Step s t
  destroys : (t : Pool) → destroy_step s ≡ to t → Step s t

-- the pools that `sgx_max_num` workers and their callers can bring about
pub data IsReachable (sgx_max_num : ℕ) : Pool → Type 0 where
  created : IsReachable sgx_max_num (create sgx_max_num)
  stepped : (s t : Pool) → IsReachable sgx_max_num s → Step s t → IsReachable sgx_max_num t
