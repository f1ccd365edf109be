-- ===== src/Timer/Tests.antt =====
-- Timers in a small queue, and the theorems at inputs that meet their hypotheses.
use sginx.Base.{
  ℕ, ◌≡◌, ◌≢◌, refl, Bool, true, false, Option, none, some, List, [], ◌∷◌, ◌++◌, arith, cell, All,
  if◌then◌else◌, ◌==◌,
}
use sginx.Base.Run.{Run, ok, Returns, ◌>>=◌}
use sginx.PriorityQueue.{Block}
use sginx.PriorityQueue.Order.{IsValid}
use sginx.Timer.{
  Node, Time, Call, Timers, Wait, msec, timer_find, timer_add, timer_del, handle_expire_timers,
}
use sginx.Timer.Find.{Found, find_correct}
use sginx.Timer.Expire.{Expired, expire_correct}
use sginx.Timer.Add.{Added, InKeyOrder, IsFresh, new_node, add_correct, del-silences}

abbrev a_node : ℕ → Bool → Node
a_node key del = record { key = key; del = del; handler = some 77; request = 500 }

-- three timers at the addresses 101 to 103; the first is deleted
abbrev nodes : ℕ → Node
nodes a =
    if a == 101 then a_node 1000 true else if a == 102 then a_node 2000 false else a_node 9000 false

abbrev sample : Timers
sample = record {
  queue = record {
    node = cell (0 ∷ 101 ∷ 102 ∷ 103 ∷ []);
    block = 7;
    cells = 11;
    size = 3;
    max_size = 10;
    frees = [];
  };
  now = 0;
  node = nodes;
  timer = λ r. if r == 500 then some 102 else none;
  calls = [];
}

abbrev at_five_seconds : Time
at_five_seconds = record { sec = 5; usec = 1000 }

abbrev clock : ℕ → Time
clock i = at_five_seconds

abbrev refuses : ℕ → Option (Block ℕ)
refuses i = none

abbrev spare : Block ℕ
spare = record { name = 9; content = λ i. 0 }

abbrev wait_of : Run (Wait × Timers) → Option Wait
wait_of (ok (w, t)) = some w
wait_of _ = none

abbrev calls_of : Run Timers → List Call
calls_of (ok t) = t.calls
calls_of _ = []

find_test :
    wait_of (timer_find sample (λ i. record { sec = 1; usec = 500000 }) refuses) ≡ some (msec 500)
unfolding timer_find
find_test = refl

expire_test :
    calls_of (handle_expire_timers sample clock refuses)
    ≡ record { timer = 102; handler = 77; request = 500; now = 5001 } ∷ []
unfolding handle_expire_timers
expire_test = refl

sample-IsValid : IsValid sample.queue
sample-IsValid = omega arith

sample-InKeyOrder : InKeyOrder sample
sample-InKeyOrder = grind arith

find_correct_example : Returns (λ (w, u). Found sample w u) (timer_find sample clock refuses)
find_correct_example = find_correct sample clock refuses sample-IsValid

expire_correct_example : Returns (Expired sample) (handle_expire_timers sample clock refuses)
expire_correct_example = expire_correct sample clock refuses sample-IsValid

sample-IsFresh : IsFresh sample 104
sample-IsFresh = grind arith

add_correct_example :
    Returns
      (Added sample 104 (new_node 600 500 (some 77) 5001))
      (timer_add sample 600 500 (some 77) (some 104) (some spare) at_five_seconds)
add_correct_example =
    add_correct sample 600 500 (some 77) 104 at_five_seconds spare sample-IsValid sample-InKeyOrder
      sample-IsFresh (omega arith)

abbrev full : Timers
full = record sample { queue = record (sample.queue) { max_size = 4 } }

full-IsValid : IsValid full.queue
full-IsValid = omega arith

del-silences_example :
    Returns
      (λ u. (fired : List Call) × (u.calls ≡ fired ++ []) × All (λ c. c.timer ≢ 102) fired)
      (timer_del sample 500 at_five_seconds >>= λ t1. handle_expire_timers t1 clock refuses)
del-silences_example = del-silences sample 500 102 at_five_seconds clock refuses sample-IsValid refl
