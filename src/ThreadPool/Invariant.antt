-- ===== src/ThreadPool/Invariant.antt =====
-- What holds of the thread pool at all times: who has the lock, what a worker knows of the list of
-- jobs, and how far the end of the pool is.
use sginx.Base.{ℕ, ◌<◌, ◌≤◌, ◌≡◌, Bool, true, false, Option, none, some, [], ◌++◌, ◌==◌}
use sginx.ThreadPool.{
  Place, looking, before_wait, waiting, testing, exited, Phase, idle, flagged, draining, gone,
  joining, Pool, Move, blocked, null_access, to, is_empty,
}

-- the places inside the lock
abbrev pub holds : Place → Bool
holds looking = true
holds before_wait = true
holds testing = true
holds p = false

abbrev pub is_holder : Option ℕ → ℕ → Bool
is_holder none i = false
is_holder (some j) i = j == i

-- the places from which only another thread leads on, and the one before them
abbrev pub sleeps : Place → Bool
sleeps before_wait = true
sleeps waiting = true
sleeps p = false

-- what the progress of sgx_thread_pool_destroy says of the pool
abbrev pub IsAt : Phase → Pool → Type 0
IsAt idle s = (s.shutdown ≡ false) × (s.dropped ≡ [])
IsAt flagged s = (s.shutdown ≡ true) × (s.dropped ≡ [])
IsAt (joining k) s =
    (s.shutdown ≡ true)
    × (s.dropped ≡ [])
    × (k ≤ s.max_num)
    × ((i : ℕ) → i < k → s.place i ≡ exited)
    × ((i : ℕ) → sleeps (s.place i) ≡ false)
IsAt draining s = (s.shutdown ≡ true) × ((i : ℕ) → i < s.max_num → s.place i ≡ exited)
IsAt gone s = (s.shutdown ≡ true) × ((i : ℕ) → i < s.max_num → s.place i ≡ exited) × (s.now ≡ [])

pub record IsSound (s : Pool) : Type 0 where
  pub holder : (i : ℕ) → holds (s.place i) ≡ is_holder s.lock i
  pub inside : (i : ℕ) → holds (s.place i) ≡ true → i < s.max_num
  pub looked : (i : ℕ) → s.place i ≡ testing → s.shutdown ≡ false → is_empty s.now ≡ false
  pub found_none : (i : ℕ) → s.place i ≡ before_wait → is_empty s.now ≡ true
  pub awake :
      is_empty s.now ≡ false
      → 0 < s.max_num
      → (i : ℕ) × (i < s.max_num) × (sleeps (s.place i) ≡ false)
  pub exits : (i : ℕ) → s.place i ≡ exited → s.shutdown ≡ true
  pub in_order : s.added ≡ s.taken ++ s.dropped ++ s.now
  pub phase_sound : IsAt s.phase s

-- a step of a thread follows no null pointer, and `Good` holds behind it
abbrev pub OnMove : (Pool → Type 0) → Move → Type 0
OnMove Good blocked = Unit
OnMove Good null_access = ⊥
OnMove Good (to t) = Good t
