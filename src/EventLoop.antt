-- ===== src/EventLoop.antt =====
-- The event loop of main in src/core/sgx_rush.c, over the timers.
-- What epoll_wait, accept, malloc and gettimeofday answer is an argument. A failed
-- sgx_socket_unblock, accept or malloc is logged only. The request behind a readable socket is not
-- read: the source ends with a bare name, `sgx_init_request`, which does nothing.
pub mod Accept
pub mod Handlers
pub mod Round
pub mod Sockets
pub mod Epoll
pub mod Connections
pub mod Rounds
pub mod Start
pub mod Main
mod MainTests
mod Tests
use sginx.Base.{ℕ, Bool, not, ◌||◌, Option, none, some, List, [], ◌∷◌, ◌==◌, if◌then◌else◌}
use sginx.Base.Run.{Run, ok, fault, out_of_fuel, ◌>>=◌}
use sginx.Http.Handle.{Closing, is_freed, close_conn}
use sginx.PriorityQueue.{Block}
use sginx.Timer.{Call, Timers, Time, Wait, timer_find, timer_add, handle_expire_timers}

-- SGX_TIMEOUT_DEFAULT
abbrev pub timeout_default : ℕ
timeout_default = 500

-- a call of sgx_epoll_add; the first argument is a pointer where an epoll descriptor is meant, and
-- `none` is NULL
pub record Registration : Type 0 where
  pub epfd : Option ℕ
  pub fd : ℕ
  pub ptr : Option ℕ

-- the timers with the calls of the latest round, the field `fd` of every request, the calls of
-- sgx_epoll_add and of close, the latest first, and the requests that were freed and whose memory was
-- not given out again
pub record Loop : Type 0 where
  pub timers : Timers
  pub fd_of : ℕ → ℕ
  pub registered : List Registration
  pub closed : List ℕ
  pub freed : List ℕ

-- a connection: its descriptor, the malloc of its request, and what sgx_timer_add is answered
pub record Connection : Type 0 where
  pub fd : ℕ
  pub new_request : Option ℕ
  pub node : Option ℕ
  pub grown : Option (Block ℕ)
  pub time : Time

-- what accept answers; every error ends the loop, EAGAIN as well
pub data AcceptAnswer : Type 0 where
  connection : Connection → AcceptAnswer
  no_more : AcceptAnswer

-- an entry of `events` that the loop visits, with the answers of accept that follow it
pub record Event : Type 0 where
  pub request : ℕ
  pub err : Bool
  pub hup : Bool
  pub readable : Bool
  pub accepts : List AcceptAnswer

-- what a round is answered, and the entries of `events` that it visits: those for i < n. The wrapper
-- sgx_epool_wait returns nothing, so n has no value of its own, and the list may be any.
pub record Turn : Type 0 where
  pub clock : ℕ → Time
  pub clock' : ℕ → Time
  pub answers : ℕ → Option (Block ℕ)
  pub answers' : ℕ → Option (Block ℕ)
  pub events : List Event

-- `free` and `close` of sgx_http_close_conn, in the state of the loop
abbrev pub with_closing : Loop → Closing → Loop
with_closing s d = record s { closed = d.closed; freed = d.freed }

-- a call that sgx_handle_expire_timers makes: sgx_http_close_conn is at `close_at`, and no other
-- function is the handler of a timer
abbrev pub perform_call : (close_at : ℕ) → Call → Loop → Run Loop
perform_call close_at c s =
    if c.handler == close_at
    then (close_conn s.fd_of c.request (record { closed = s.closed; freed = s.freed }) >>= λ d.
        ok (with_closing s d))
    else fault

-- the calls of a round, of which the latest stands first. They are performed behind the loop of
-- sgx_handle_expire_timers, which reads nothing that they change.
unfoldable pub perform_calls : (close_at : ℕ) → List Call → Loop → Run Loop
perform_calls close_at [] s = ok s
perform_calls close_at (c ∷ calls) s =
    perform_calls close_at calls s >>= λ u. perform_call close_at c u

-- malloc gives out the memory of a request
abbrev pub given_out : Option ℕ → List ℕ → List ℕ
given_out none freed = freed
given_out (some p) [] = []
given_out (some p) (q ∷ freed) =
    let rest = given_out (some p) freed in if q == p then rest else q ∷ rest

module _ (close_at listen_socket : ℕ) where
  -- a connection is taken: the timer is that of `request`, the request of the listening socket
  unfoldable pub accept_one : Loop → ℕ → Connection → Run Loop
  unfolding timer_add
  accept_one s request c =
      let added = record s {
        registered = record { epfd = c.new_request; fd = c.fd; ptr = c.new_request } ∷ s.registered;
        freed = given_out c.new_request s.freed;
      } in
      timer_add s.timers request timeout_default (some close_at) c.node c.grown c.time >>= λ t.
      ok (record added { timers = t })

  -- the inner loop over accept
  unfoldable pub accept_loop : List AcceptAnswer → Loop → ℕ → Run Loop
  unfolding accept_one
  accept_loop [] s request = out_of_fuel
  accept_loop (no_more ∷ rest) s request = ok s
  accept_loop (connection c ∷ rest) s request =
      accept_one s request c >>= λ u. accept_loop rest u request

  -- one event; the request that it points to is read, which is a fault when it was freed
  unfoldable pub handle_event : Loop → Event → Run Loop
  unfolding accept_loop
  handle_event s e =
      let fd = s.fd_of e.request in
      let other =
        if e.err || e.hup || not e.readable then record s { closed = fd ∷ s.closed } else s in
      let handled = if listen_socket == fd then accept_loop e.accepts s e.request else ok other in
      if is_freed s.freed e.request then fault else handled

  unfoldable pub handle_events : List Event → Loop → Run Loop
  unfolding handle_event
  handle_events [] s = ok s
  handle_events (e ∷ events) s = handle_event s e >>= λ u. handle_events events u

  -- one round: sgx_timer_find, the wait, sgx_handle_expire_timers with what the handlers do,
  -- and the events
  unfoldable pub round :
      Loop
      → (clock clock' : ℕ → Time) → (answers answers' : ℕ → Option (Block ℕ)) → List Event
      → Run (Wait × Loop)
  unfolding handle_events perform_calls
  round s clock clock' answers answers' events = do
    (time, t1) ← timer_find s.timers clock answers
    t2 ← handle_expire_timers (record t1 { calls = [] }) clock' answers'
    v ← perform_calls close_at t2.calls (record s { timers = t2 })
    u ← handle_events events v
    ok (time, u)

  -- the rounds of the loop, each with its answers and its events
  unfoldable pub rounds : List Turn → Loop → Run Loop
  unfolding round
  rounds [] s = ok s
  rounds (t ∷ turns) s =
      round s t.clock t.clock' t.answers t.answers' t.events >>= λ (time, u). rounds turns u
