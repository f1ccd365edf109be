-- ===== src/EventLoop/Tests.antt =====
-- A loop with one listening socket, and the theorems at it.
use sginx.Base.{
  ℕ, ◌≡◌, refl, true, false, Option, none, some, List, [], ◌∷◌, arith, if◌then◌else◌, ◌==◌,
}
use sginx.Base.Run.{Run, ok, fault, Returns}
use sginx.PriorityQueue.{Block}
use sginx.Timer.{Wait, Timers, Time, timer_find, handle_expire_timers}
use sginx.Http.Handle.{close_conn}
use sginx.Timer.Find.{Found}
use sginx.Timer.Expire.{Expired}
use sginx.EventLoop.{
  perform_calls, handle_events, handle_event, Loop, Event, Connection, connection, no_more,
  accept_loop, round,
}
use sginx.EventLoop.Accept.{CanAdd, CanAccept, ends, takes, served, Accepted, accept_loop-Accepted}
use sginx.EventLoop.Round.{is_safe, behind, round_correct}

abbrev empty_timers : Timers
empty_timers = record {
  queue = record { node = λ i. 0; block = 1; cells = 11; size = 0; max_size = 10; frees = [] };
  now = 0;
  node = λ a. record { key = 0; del = true; handler = none; request = 0 };
  timer = λ r. none;
  calls = [];
}

-- the listening socket is 3, with its request at 900
abbrev loop : Loop
loop = record {
  timers = empty_timers;
  fd_of = λ r. if r == 900 then 3 else 8;
  registered = [];
  closed = [];
  freed = [];
}

abbrev time : Time
time = record { sec = 2; usec = 0 }

abbrev spare : Block ℕ
spare = record { name = 4; content = λ i. 0 }

abbrev client : Connection
client = served 8 (some 950) 300 spare time

abbrev timer_of : Run Loop → ℕ → Option ℕ
timer_of (ok u) r = u.timers.timer r
timer_of _ r = none

listener_test :
    timer_of (accept_loop 77 3 (connection client ∷ no_more ∷ []) loop 900) 900 ≡ some 300
unfolding accept_loop
listener_test = refl

client_test : timer_of (accept_loop 77 3 (connection client ∷ no_more ∷ []) loop 900) 950 ≡ none
unfolding accept_loop
client_test = refl

empty-CanAdd : CanAdd empty_timers 300
empty-CanAdd = record {
  valid = omega arith;
  order = λ c big le. absurd (omega arith);
  fresh = λ i pos le. absurd (omega arith);
  small = omega arith;
}

client-CanAccept : CanAccept 77 3 loop 900 (connection client ∷ no_more ∷ []) (client ∷ [])
client-CanAccept =
    takes loop 900 300 spare 8 (some 950) time (no_more ∷ []) [] empty-CanAdd (λ u e. ends u 900 [])

accept_loop-Accepted_example :
    Returns
      (Accepted 77 3 loop 900 (client ∷ []))
      (accept_loop 77 3 (connection client ∷ no_more ∷ []) loop 900)
accept_loop-Accepted_example =
    accept_loop-Accepted 77 3 loop 900 (connection client ∷ no_more ∷ []) (client ∷ [])
      client-CanAccept

-- a connection that hung up
abbrev hangup : Event
hangup = record { request = 951; err = false; hup = true; readable = true; accepts = [] }

abbrev clock : ℕ → Time
clock i = time

abbrev no_memory : ℕ → Option (Block ℕ)
no_memory i = none

-- the timer at 300, for the request at 950, is due at 100
abbrev waiting : Loop
waiting = record loop {
  timers = record empty_timers {
    queue = record { node = λ i. 300; block = 1; cells = 11; size = 1; max_size = 10; frees = [] };
    node = λ a. record { key = 100; del = false; handler = some 77; request = 950 };
    timer = λ r. some 300;
  };
}

abbrev freed_of : Run (Wait × Loop) → Option (List ℕ)
freed_of (ok (wait, u)) = some u.freed
freed_of _ = none

-- the round frees the request of the timer that fires, and closes both descriptors
fires_test :
    freed_of (round 77 3 waiting clock clock no_memory no_memory (hangup ∷ [])) ≡ some (950 ∷ [])
unfolding round timer_find handle_expire_timers perform_calls close_conn handle_events handle_event
    accept_loop
fires_test = refl

-- an event for the request that was freed is a fault
freed_test :
    round 77 3 waiting clock clock no_memory no_memory (record hangup { request = 950 } ∷ [])
    ≡ fault
unfolding round timer_find handle_expire_timers perform_calls close_conn handle_events handle_event
    accept_loop
freed_test = refl

round_correct_example :
    (time : Wait) × (t t' : Timers) × Found waiting.timers time t
    × Expired (record t { calls = [] }) t'
    × ((is_safe waiting t' (hangup ∷ []) ≡ true
          → round 77 3 waiting clock clock no_memory no_memory (hangup ∷ [])
            ≡ ok (time, behind waiting t' (hangup ∷ [])))
        × (is_safe waiting t' (hangup ∷ []) ≡ false
            → round 77 3 waiting clock clock no_memory no_memory (hangup ∷ []) ≡ fault))
round_correct_example =
    round_correct 77 3 waiting clock clock no_memory no_memory (hangup ∷ []) (omega arith)
      (refl, tt) (λ a h e. cc e)
