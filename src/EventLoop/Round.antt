-- ===== src/EventLoop/Round.antt =====
-- A round of the event loop of src/core/sgx_rush.c without new connections.
use sginx.Base.{
  ℕ, ◌≡◌, ◌∙◌, ap, refl, Bool, true, false, not, ◌&&◌, ◌||◌, Option, some, List, [], ◌∷◌, ◌++◌, All,
  All-append, arith, ◌==◌, if◌then◌else◌, inl, inr, Bool-cases,
}
use sginx.Base.Run.{Run, ok, fault, ◌>>=◌, Returns, with_value}
use sginx.Http.Handle.{is_freed}
use sginx.PriorityQueue.{Block}
use sginx.PriorityQueue.Order.{IsValid}
use sginx.Timer.{timer_find, handle_expire_timers, Wait, Call, Timers, Time}
use sginx.Timer.Find.{Found, find_correct}
use sginx.Timer.Expire.{Expired, expire_correct}
use sginx.EventLoop.Handlers.{
  requests, descriptors, frees_once, closes, perform_calls-closes, due-handlers,
}
use sginx.EventLoop.{Loop, Event, handle_event, handle_events, round}

-- the descriptors that the events close, before the earlier ones
abbrev pub closed_after : (ℕ → ℕ) → List Event → List ℕ → List ℕ
closed_after fd_of [] old = old
closed_after fd_of (e ∷ events) old =
    closed_after fd_of events
      (if e.err || e.hup || not e.readable then fd_of e.request ∷ old else old)

-- no event points to a request that was freed
abbrev pub are_alive : (freed : List ℕ) → List Event → Bool
are_alive freed [] = true
are_alive freed (e ∷ events) = not (is_freed freed e.request) && are_alive freed events

-- in a round that leaves these timers, no request that was freed is freed again, or read for an event
abbrev pub is_safe : Loop → Timers → List Event → Bool
is_safe s t events =
    frees_once s.freed (requests t.calls) && are_alive (requests t.calls ++ s.freed) events

-- the loop behind a round
abbrev pub behind : Loop → Timers → List Event → Loop
behind s t events = record s {
  timers = t;
  closed = closed_after s.fd_of events (descriptors s.fd_of (requests t.calls) ++ s.closed);
  freed = requests t.calls ++ s.freed;
}

either :
    {A : Type 0} (test : Bool) (call : Run A) (value : A)
    → call ≡ (if test then ok value else fault)
    → (test ≡ true → call ≡ ok value) × (test ≡ false → call ≡ fault)
either true call value e = ((λ yes. e), (λ no. absurd (ground (arith, no))))
either false call value e = ((λ yes. absurd (ground (arith, yes))), (λ no. e))

value_of {ℓ ℓ'} :
    {S : Type ℓ} {Good : S → Type ℓ'} {call : Run S}
    → Returns Good call
    → (s : S) × (call ≡ ok s) × Good s
value_of (with_value s e good) = (s, e, good)

module _ (close_at listen_socket : ℕ) where
  -- the event is not one of the listening socket
  abbrev pub IsOther : (ℕ → ℕ) → Event → Type 0
  IsOther fd_of e = (listen_socket == fd_of e.request) ≡ false

  close_if :
      (b : Bool) (s : Loop) (fd : ℕ)
      → (if b then record s { closed = fd ∷ s.closed } else s)
        ≡ record s { closed = if b then fd ∷ s.closed else s.closed }
  close_if true s fd = refl
  close_if false s fd = refl

  handle_events-IsOther :
      (events : List Event) (s : Loop)
      → All (IsOther s.fd_of) events
      → handle_events close_at listen_socket events s ≡ (
          if are_alive s.freed events
          then ok (record s { closed = closed_after s.fd_of events s.closed })
          else fault)
  unfolding handle_events handle_event
  handle_events-IsOther [] s others = refl
  handle_events-IsOther (e ∷ events) s others = elim (Bool-cases (is_freed s.freed e.request)) [
    | inl gone ↦ rw gone refl
    | inr alive ↦
        rw (alive, others.0, close_if (e.err || e.hup || not e.readable) s (s.fd_of e.request))
          (handle_events-IsOther events _ others.1)
  ]

  -- what follows the timers in a round
  abbrev behind_timers : Wait → List Event → Run Loop → Run (Wait × Loop)
  behind_timers time events called =
      called >>= λ v. handle_events close_at listen_socket events v >>= λ u. ok (time, u)

  events-behind :
      (time : Wait) (events : List Event) (s : Loop) (t : Timers) (once : Bool)
      → All (IsOther s.fd_of) events
      → behind_timers time events
          (if once then ok (closes (record s { timers = t }) (requests t.calls)) else fault)
        ≡ (if once && are_alive (requests t.calls ++ s.freed) events
            then ok (time, behind s t events)
            else fault)
  events-behind time events s t false others = refl
  events-behind time events s t true others =
      rw (handle_events-IsOther events (closes (record s { timers = t }) (requests t.calls)) others)
        (elim (Bool-cases (are_alive (requests t.calls ++ s.freed) events)) [
          | inl alive ↦ rw alive refl
          | inr gone ↦ rw gone refl
        ])

  round-behind :
      (s : Loop) (clock clock' : ℕ → Time) (answers answers' : ℕ → Option (Block ℕ))
      (events : List Event) (time : Wait) (t t' : Timers)
      → timer_find s.timers clock answers ≡ ok (time, t)
      → handle_expire_timers (record t { calls = [] }) clock' answers' ≡ ok t'
      → All (IsOther s.fd_of) events
      → All (λ (c : Call). c.handler ≡ close_at) t'.calls
      → round close_at listen_socket s clock clock' answers answers' events
        ≡ (if is_safe s t' events then ok (time, behind s t' events) else fault)
  unfolding round
  round-behind s clock clock' answers answers' events time t t' found expired others called =
      rw (found, expired)
        (ap (behind_timers time events)
            (perform_calls-closes close_at t'.calls (record s { timers = t' }) called)
          ∙ events-behind time events s t' (frees_once s.freed (requests t'.calls)) others)

  -- The timer queue is valid, sgx_http_close_conn is the handler of every timer that has one, and no
  -- event is for the listening socket. Then sgx_timer_find answers a waiting time, and
  -- sgx_handle_expire_timers fires due timers, as these two promise. If the timers that fire and the
  -- events touch no request that was freed before, the round returns that time: each request of a
  -- fired timer has its descriptor closed and is freed, then each event with an error, a hangup or no
  -- data closes its descriptor, and nothing else changes, nothing is registered. Otherwise the round is
  -- a fault: a request is freed twice, or read after that.
  pub round_correct :
      (s : Loop) (clock clock' : ℕ → Time) (answers answers' : ℕ → Option (Block ℕ))
      (events : List Event)
      → IsValid s.timers.queue
      → All (IsOther s.fd_of) events
      → ((a h : ℕ) → (s.timers.node a).handler ≡ some h → h ≡ close_at)
      → (time : Wait) × (t t' : Timers) × Found s.timers time t
        × Expired (record t { calls = [] }) t'
        × ((is_safe s t' events ≡ true
              → round close_at listen_socket s clock clock' answers answers' events
                ≡ ok (time, behind s t' events))
            × (is_safe s t' events ≡ false
                → round close_at listen_socket s clock clock' answers answers' events ≡ fault))
  round_correct s clock clock' answers answers' events valid others handlers =
      let (pair, found_ok, found) = value_of (find_correct s.timers clock answers valid) in
      let time = pair.0 in
      let t = pair.1 in
      let (t', expired_ok, expired) =
        value_of (expire_correct (record t { calls = [] }) clock' answers' found.valid) in
      let ours : (a h : ℕ) → (t.node a).handler ≡ some h → h ≡ close_at =
        λ a h e. handlers a h (rw (← found.node) e) in
      let called : All (λ (c : Call). c.handler ≡ close_at) t'.calls = rw expired.calls (
        All-append (λ (c : Call). c.handler ≡ close_at) expired.fired []
          (due-handlers close_at t.node expired.fired ours expired.due, tt)) in
      (
        time,
        t,
        t',
        found,
        expired,
        either (is_safe s t' events)
            (round close_at listen_socket s clock clock' answers answers' events)
            (time, behind s t' events)
            (round-behind s clock clock' answers answers' events time t t' found_ok expired_ok
              others called),
      )
