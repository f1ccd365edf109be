-- ===== src/ThreadPool/Others.antt =====
-- The steps of sgx_thread_pool_add_work and spurious wakeups keep the invariant.
use sginx.Base.{
  ℕ, ◌<◌, ◌≡◌, ◌≢◌, refl, ap, false, Option, none, some, List, [], ◌∷◌, ◌++◌, arith, append_assoc,
}
use sginx.ThreadPool.{
  Work, waiting, woken, Phase, idle, flagged, draining, gone, joining, Pool, is_empty, at_place,
  link_last, enqueue, MayPick, waiter, nobody,
}
use sginx.ThreadPool.Invariant.{sleeps, IsAt, IsSound, OnMove}
use sginx.ThreadPool.Worker.{IsAt-moved}

-- a waiting worker wakes
pub wake-IsSound :
    (s : Pool) (i : ℕ)
    → IsSound s
    → i < s.max_num
    → s.place i ≡ waiting
    → IsSound (at_place s i woken)
wake-IsSound s i v m e = record {
  holder = λ j. ground (arith, v.holder j, v.holder i);
  inside = λ j. ground (arith, v.inside j);
  looked = λ j. ground (arith, v.looked j);
  found_none = λ j. ground (arith, v.found_none j);
  awake = λ more some_workers. (i, m, ground arith);
  exits = λ j. ground (arith, v.exits j);
  in_order = v.in_order;
  phase_sound = IsAt-moved s i woken s.lock s.phase v.phase_sound m (ground arith) (λ e k. refl);
}

link_last_lem : (now : List Work) (w : Work) → link_last now w ≡ now ++ w ∷ []
unfolding link_last
link_last_lem [] w = refl
link_last_lem (v ∷ now) w = ap (λ l. v ∷ l) (link_last_lem now w)

is_empty-link_last : (now : List Work) (w : Work) → is_empty (link_last now w) ≡ false
unfolding link_last
is_empty-link_last [] w = refl
is_empty-link_last (v ∷ now) w = refl

abbrev appended : Pool → Work → Pool
appended s w = record s { now = link_last s.now w; added = s.added ++ w ∷ [] }

appended-IsAt :
    (s : Pool) (w : Work) (phase : Phase) → phase ≢ gone → IsAt phase s → IsAt phase (appended s w)
appended-IsAt s w idle ne h = h
appended-IsAt s w flagged ne h = h
appended-IsAt s w (joining k) ne h = h
appended-IsAt s w draining ne h = h
appended-IsAt s w gone ne h = absurd (ne refl)

-- all but the search for a worker that is awake
appended-IsSound :
    (s : Pool) (w : Work)
    → IsSound s
    → s.phase ≢ gone
    → s.lock ≡ none
    → (0 < s.max_num → (i : ℕ) × (i < s.max_num) × (sleeps (s.place i) ≡ false))
    → IsSound (appended s w)
appended-IsSound s w v ne unlocked up = record {
  holder = v.holder;
  inside = v.inside;
  looked = λ j h k. is_empty-link_last s.now w;
  found_none = λ j h. absurd (ground (arith, v.holder j));
  awake = λ more some_workers. up some_workers;
  exits = v.exits;
  in_order =
      rw (v.in_order, link_last_lem s.now w) (append_assoc (s.taken ++ s.dropped) s.now (w ∷ []));
  phase_sound = appended-IsAt s w s.phase ne v.phase_sound;
}

pub enqueue-IsSound :
    (s : Pool) (w : Work) (chosen lock : Option ℕ)
    → IsSound s
    → s.phase ≢ gone
    → s.lock ≡ lock
    → MayPick s chosen
    → OnMove IsSound (enqueue lock s w chosen)
unfolding enqueue
enqueue-IsSound s w chosen (some j) v ne e pick = tt
enqueue-IsSound s w (some _) none v ne e (waiter i m at) =
    appended-IsSound (at_place s i woken) w (wake-IsSound s i v m at) ne e
      (λ some_workers. (i, m, ground arith))
enqueue-IsSound s w none none v ne e (nobody awake) =
    appended-IsSound s w v ne e
      (λ some_workers. (0, some_workers, ground (arith, v.holder 0, awake 0 some_workers)))
