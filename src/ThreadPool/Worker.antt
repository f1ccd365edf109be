-- ===== src/ThreadPool/Worker.antt =====
-- The steps of the workers keep the invariant.
use sginx.Base.{
  ℕ, ◌<◌, ◌≡◌, ◌≢◌, if◌then◌else◌, inl, inr, append-nil, refl, sym, Bool, true, false, not, ◌&&◌,
  Option, none, some, List, [], ◌∷◌, ◌++◌, append_assoc, arith, Bool-cases,
}
use sginx.ThreadPool.{
  Work, Place, want_lock, looking, before_wait, waiting, woken, testing, exited, running, Phase,
  idle, flagged, draining, gone, joining, Pool, to, is_empty, at_place, acquire, release, take,
  worker_at, worker_step,
}
use sginx.ThreadPool.Invariant.{sleeps, IsAt, IsSound, OnMove}

-- the worker `i` may go to `p`, at which it does not sleep
abbrev pub moved : Pool → ℕ → Place → Option ℕ → Pool
moved s i p lock = record (at_place s i p) { lock = lock }

pub IsAt-moved :
    (s : Pool) (i : ℕ) (p : Place) (lock : Option ℕ) (phase : Phase)
    → IsAt phase s
    → i < s.max_num
    → s.place i ≢ exited
    → (s.shutdown ≡ true → sleeps (s.place i) ≡ false → sleeps p ≡ false)
    → IsAt phase (moved s i p lock)
IsAt-moved s i p lock idle h m ne up = h
IsAt-moved s i p lock flagged h m ne up = h
IsAt-moved s i p lock (joining k) (down, empty, le, done, up') m ne up = (
  down,
  empty,
  le,
  (λ j lt. ground (arith, done j lt, done i)),
  λ j. ground (arith, up' j, up down (up' i)),
)
IsAt-moved s i p lock draining (down, done) m ne up = absurd (ne (done i m))
IsAt-moved s i p lock gone (down, done, none') m ne up = absurd (ne (done i m))

acquire-IsSound :
    (s : Pool) (i : ℕ) (lock : Option ℕ)
    → IsSound s
    → i < s.max_num
    → s.lock ≡ lock
    → s.place i ≢ exited
    → OnMove IsSound (acquire lock s i)
acquire-IsSound s i (some j) v m e ne = tt
acquire-IsSound s i none v m e ne = record {
  holder = λ j. ground (arith, v.holder j);
  inside = λ j. ground (arith, v.inside j);
  looked = λ j. ground (arith, v.looked j);
  found_none = λ j. ground (arith, v.found_none j);
  awake = λ more some_workers. let (j, lt, up) = v.awake more some_workers in (j, lt, ground arith);
  exits = λ j. ground (arith, v.exits j);
  in_order = v.in_order;
  phase_sound = IsAt-moved s i looking (some i) s.phase v.phase_sound m ne (λ e k. refl);
}

-- the inner loop's test, with the lock
looking-IsSound :
    (s : Pool) (i : ℕ)
    → IsSound s
    → i < s.max_num
    → s.place i ≡ looking
    → OnMove IsSound (worker_at looking s i)
unfolding worker_at
looking-IsSound s i v m e = elim (Bool-cases (is_empty s.now && not s.shutdown)) [
  | inl idle_again ↦ rw idle_again (record {
    holder = λ j. ground (arith, v.holder j, v.holder i);
    inside = λ j. ground (arith, v.inside j);
    looked = λ j. ground (arith, v.looked j);
    found_none = λ j. ground (arith, v.found_none j);
    awake = λ more some_workers. absurd (ground arith);
    exits = λ j. ground (arith, v.exits j);
    in_order = v.in_order;
    phase_sound =
        IsAt-moved s i before_wait s.lock s.phase v.phase_sound m (ground arith) (ground arith);
  })
  | inr some_news ↦ rw some_news (record {
    holder = λ j. ground (arith, v.holder j, v.holder i);
    inside = λ j. ground (arith, v.inside j);
    looked = λ j. ground (arith, v.looked j);
    found_none = λ j. ground (arith, v.found_none j);
    awake = λ more some_workers. (i, m, ground arith);
    exits = λ j. ground (arith, v.exits j);
    in_order = v.in_order;
    phase_sound =
        IsAt-moved s i testing s.lock s.phase v.phase_sound m (ground arith) (λ e k. refl);
  })
]

before_wait-IsSound :
    (s : Pool) (i : ℕ)
    → IsSound s
    → i < s.max_num
    → s.place i ≡ before_wait
    → OnMove IsSound (worker_at before_wait s i)
unfolding worker_at
before_wait-IsSound s i v m e = record {
  holder = λ j. ground (arith, v.holder j, v.holder i);
  inside = λ j. ground (arith, v.inside j);
  looked = λ j. ground (arith, v.looked j);
  found_none = λ j. ground (arith, v.found_none j);
  awake = λ more some_workers. absurd (ground (arith, v.found_none i));
  exits = λ j. ground (arith, v.exits j);
  in_order = v.in_order;
  phase_sound = IsAt-moved s i waiting none s.phase v.phase_sound m (ground arith) (ground arith);
}

running-IsSound :
    (s : Pool) (i : ℕ) (w : Work)
    → IsSound s
    → i < s.max_num
    → s.place i ≡ running w
    → OnMove IsSound (worker_at (running w) s i)
unfolding worker_at
running-IsSound s i w v m e = record {
  holder = λ j. ground (arith, v.holder j, v.holder i);
  inside = λ j. ground (arith, v.inside j);
  looked = λ j. ground (arith, v.looked j);
  found_none = λ j. ground (arith, v.found_none j);
  awake = λ more some_workers. (i, m, ground arith);
  exits = λ j. ground (arith, v.exits j);
  in_order = v.in_order;
  phase_sound =
      IsAt-moved s i want_lock s.lock s.phase v.phase_sound m (ground arith) (λ e k. refl);
}

exited-IsSound :
    (s : Pool) (i : ℕ)
    → IsSound s
    → i < s.max_num
    → s.place i ≡ testing
    → s.shutdown ≡ true
    → IsSound (release (at_place s i exited))
exited-IsSound s i v m e down = record {
  holder = λ j. ground (arith, v.holder j, v.holder i);
  inside = λ j. ground (arith, v.inside j);
  looked = λ j. ground (arith, v.looked j);
  found_none = λ j. ground (arith, v.found_none j);
  awake = λ more some_workers. (i, m, ground arith);
  exits = λ j h. down;
  in_order = v.in_order;
  phase_sound = IsAt-moved s i exited none s.phase v.phase_sound m (ground arith) (λ e k. refl);
}

-- a worker that may take a job is there before the pool is destroyed
open_phase :
    (s : Pool) (phase : Phase)
    → IsAt phase s
    → s.shutdown ≡ false
    → (phase ≡ idle) × (s.dropped ≡ [])
open_phase s idle h live = (refl, h.1)
open_phase s flagged h live = absurd (ground (arith, h.0))
open_phase s (joining k) h live = absurd (ground (arith, h.0))
open_phase s draining h live = absurd (ground (arith, h.0))
open_phase s gone h live = absurd (ground (arith, h.0))

take-IsSound :
    (s : Pool) (i : ℕ) (now : List Work)
    → IsSound s
    → i < s.max_num
    → s.place i ≡ testing
    → s.shutdown ≡ false
    → s.now ≡ now
    → OnMove IsSound (take now s i)
unfolding take
take-IsSound s i [] v m e live same = absurd (ground (arith, v.looked i e live))
take-IsSound s i (w ∷ ws) v m e live same =
    let (early, kept) = open_phase s s.phase v.phase_sound live in
    record {
      holder = λ j. ground (arith, v.holder j, v.holder i);
      inside = λ j. ground (arith, v.inside j);
      looked = λ j. ground (arith, v.looked j, v.holder i, v.holder j);
      found_none = λ j. ground (arith, v.found_none j, v.holder i, v.holder j);
      awake = λ more some_workers. (i, m, ground arith);
      exits = λ j. ground (arith, v.exits j);
      in_order =
          rw (v.in_order, kept, same, append-nil s.taken, append-nil (s.taken ++ w ∷ []))
            (sym (append_assoc s.taken (w ∷ []) ws));
      phase_sound = rw early (live, kept);
    }

testing-IsSound :
    (s : Pool) (i : ℕ) (shutdown : Bool)
    → IsSound s
    → i < s.max_num
    → s.place i ≡ testing
    → s.shutdown ≡ shutdown
    → OnMove IsSound (if shutdown then to (release (at_place s i exited)) else take s.now s i)
testing-IsSound s i true v m e down = exited-IsSound s i v m e down
testing-IsSound s i false v m e live = take-IsSound s i s.now v m e live refl

worker_at-IsSound :
    (s : Pool) (i : ℕ) (p : Place)
    → IsSound s
    → i < s.max_num
    → s.place i ≡ p
    → OnMove IsSound (worker_at p s i)
unfolding worker_at
worker_at-IsSound s i want_lock v m e = acquire-IsSound s i s.lock v m refl (ground arith)
worker_at-IsSound s i woken v m e = acquire-IsSound s i s.lock v m refl (ground arith)
worker_at-IsSound s i looking v m e = looking-IsSound s i v m e
worker_at-IsSound s i before_wait v m e = before_wait-IsSound s i v m e
worker_at-IsSound s i waiting v m e = tt
worker_at-IsSound s i exited v m e = tt
worker_at-IsSound s i (running w) v m e = running-IsSound s i w v m e
worker_at-IsSound s i testing v m e = testing-IsSound s i s.shutdown v m e refl

-- Every step of a worker keeps the invariant, and no worker takes a job from an empty list.
pub worker-IsSound :
    (s : Pool) (i : ℕ) → IsSound s → i < s.max_num → OnMove IsSound (worker_step s i)
unfolding worker_step
worker-IsSound s i v m = worker_at-IsSound s i (s.place i) v m refl
