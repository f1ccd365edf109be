-- ===== src/EventLoop/Rounds.antt =====
-- Any number of rounds of the event loop, with new connections.
use sginx.Base.{
  ℕ, ◌+◌, ◌^◌, ◌≤◌, ◌<◌, ◌≡◌, ◌∙◌, ap, refl, inl, inr, Bool, true, false, not, ◌||◌, List, [], ◌∷◌,
  arith, All, ◌==◌, Bool-cases, if◌then◌else◌,
}
use sginx.Base.Run.{ok, Returns, returns, Returns-map, Returns-bind}
use sginx.Http.Handle.{is_freed}
use sginx.Timer.{Call, Timers}
use sginx.Timer.Quiet.{InWindow, timer_find-Quiet, handle_expire_timers-Quiet}
use sginx.EventLoop.Connections.{
  Within, Ends, accepted, Served, Served-step, Served-none, accept_loop-Served,
}
use sginx.EventLoop.{
  perform_calls, timeout_default, Loop, Event, Turn, handle_event, handle_events, round, rounds,
}

module _ (listen_socket : ℕ) where
  -- the connections that an event brings
  abbrev pub brought : (ℕ → ℕ) → Event → ℕ
  brought fd_of e = if listen_socket == fd_of e.request then accepted e.accepts else 0

  abbrev pub all_brought : (ℕ → ℕ) → List Event → ℕ
  all_brought fd_of [] = 0
  all_brought fd_of (e ∷ events) = brought fd_of e + all_brought fd_of events

  -- an event of the listening socket comes with an end of its connections
  abbrev pub IsAnswered : (base : ℕ) → (ℕ → ℕ) → Event → Type 0
  IsAnswered base fd_of e = (listen_socket == fd_of e.request) ≡ true → Ends base e.accepts

  -- in a round, events of the listening socket are answered, and the clock shows times of the timeout
  -- from `base` on when the due timers are looked for
  abbrev pub IsTimely : (base : ℕ) → (ℕ → ℕ) → Turn → Type 0
  IsTimely base fd_of t =
      All (IsAnswered base fd_of) t.events × ((i : ℕ) → InWindow base timeout_default (t.clock' i))

  -- the connections that some rounds bring
  abbrev pub total : (ℕ → ℕ) → List Turn → ℕ
  total fd_of [] = 0
  total fd_of (t ∷ turns) = all_brought fd_of t.events + total fd_of turns

timer-Within :
    (base m : ℕ) (s : Loop) (t : Timers)
    → t.queue ≡ s.timers.queue
    → t.node ≡ s.timers.node
    → Within base m s
    → Within base m (record s { timers = t })
timer-Within base m s t queue node within = record {
  valid = rw queue within.valid;
  few = rw queue within.few;
  tight = rw queue within.tight;
  quiet = rw (queue, node) within.quiet;
  none_freed = within.none_freed;
}

no_calls :
    (close_at : ℕ) (calls : List Call) (s : Loop)
    → calls ≡ []
    → perform_calls close_at calls s ≡ ok s
unfolding perform_calls
no_calls close_at calls s e = rw e refl

module _ (base close_at listen_socket : ℕ) where
  closing :
      (m : ℕ) (b : Bool) (s : Loop) (fd : ℕ)
      → Within base m s
      → Returns (Served base m 0 s) (ok (if b then record s { closed = fd ∷ s.closed } else s))
  closing m true s fd within =
      let same = Served-none base m s within in
      returns (record {
        within = record {
          valid = same.within.valid;
          few = same.within.few;
          tight = same.within.tight;
          quiet = same.within.quiet;
          none_freed = same.within.none_freed;
        };
        registered = same.registered;
        fd_of = refl;
      })
  closing m false s fd within = returns (Served-none base m s within)

  handle_event-Served :
      (fd_of : ℕ → ℕ) (m : ℕ) (s : Loop) (e : Event)
      → s.fd_of ≡ fd_of
      → IsAnswered listen_socket base fd_of e
      → base + 1000 < 2 ^ 64
      → Within base m s
      → m + brought listen_socket fd_of e ≤ 2 ^ 57
      → Returns
          (Served base m (brought listen_socket fd_of e) s)
          (handle_event close_at listen_socket s e)
  unfolding handle_event
  handle_event-Served fd_of m s e fds answered no_wrap within small =
      let test = ap (λ (f : ℕ → ℕ). listen_socket == f e.request) fds in
      let alive : is_freed s.freed e.request ≡ false =
        ap (λ freed. is_freed freed e.request) within.none_freed in
      elim (Bool-cases (listen_socket == fd_of e.request)) [
        | inl same ↦
            rw (alive, test, same)
              (accept_loop-Served base close_at listen_socket m e.accepts s e.request
                (answered same) no_wrap within (ground (arith, same, small)))
        | inr other ↦
            rw (alive, test, other)
              (closing m (e.err || e.hup || not e.readable) s (s.fd_of e.request) within)
      ]

  handle_events-Served :
      (fd_of : ℕ → ℕ) (m : ℕ) (events : List Event) (s : Loop)
      → s.fd_of ≡ fd_of
      → All (IsAnswered listen_socket base fd_of) events
      → base + 1000 < 2 ^ 64
      → Within base m s
      → m + all_brought listen_socket fd_of events ≤ 2 ^ 57
      → Returns
          (Served base m (all_brought listen_socket fd_of events) s)
          (handle_events close_at listen_socket events s)
  unfolding handle_events
  handle_events-Served fd_of m [] s fds answered no_wrap within small =
      returns (Served-none base m s within)
  handle_events-Served fd_of m (e ∷ events) s fds answered no_wrap within small =
      Returns-bind (handle_event-Served fd_of m s e fds answered.0 no_wrap within (omega arith))
        λ u first.
          Returns-map
            (handle_events-Served fd_of (m + brought listen_socket fd_of e) events u
              (first.fd_of ∙ fds) answered.1 no_wrap first.within (omega arith))
            (λ v later.
              Served-step base m (brought listen_socket fd_of e)
                (all_brought listen_socket fd_of events) s u v first later)

  round-Served :
      (fd_of : ℕ → ℕ) (m : ℕ) (t : Turn) (s : Loop)
      → s.fd_of ≡ fd_of
      → IsTimely listen_socket base fd_of t
      → base + 1000 < 2 ^ 64
      → Within base m s
      → m + all_brought listen_socket fd_of t.events ≤ 2 ^ 57
      → Returns
          (λ (time, u). Served base m (all_brought listen_socket fd_of t.events) s u)
          (round close_at listen_socket s t.clock t.clock' t.answers t.answers' t.events)
  unfolding round
  round-Served fd_of m t s fds timely no_wrap within small =
      let bound = base + timeout_default in
      Returns-bind (timer_find-Quiet bound s.timers t.clock t.answers within.valid within.quiet)
        λ (time, t1) (queue, node).
          let one = timer-Within base m s t1 queue node within in
          Returns-bind
            (handle_expire_timers-Quiet bound (record t1 { calls = [] }) t.clock' t.answers'
              one.valid one.quiet (timely.1 0).1)
            λ t2 (queue', node', calls).
              let two = timer-Within base m (record s { timers = t1 }) t2 queue' node' one in
              rw (no_calls close_at t2.calls (record s { timers = t2 }) calls) (
                Returns-bind
                  (handle_events-Served fd_of m t.events (record s { timers = t2 }) fds timely.0
                    no_wrap two small)
                  λ u served. returns (record {
                    within = served.within;
                    registered = served.registered;
                    fd_of = served.fd_of;
                  }))

  -- The clock shows times of one timeout, from `base` on, whenever a timer is added or due timers are
  -- looked for. The timer queue is valid after at most m insertions, none of its timers is due
  -- before the end of that time, no request was freed, at most 2^57 connections come in all, each
  -- loop over accept ends, and malloc gives a node for each timer; it may refuse larger arrays. Then
  -- any number of rounds return, with any events: no request was freed, the queue is valid, with no
  -- more timers than connections were added, and sgx_epoll_add was called once for each connection.
  pub rounds-Served :
      (fd_of : ℕ → ℕ) (m : ℕ) (turns : List Turn) (s : Loop)
      → s.fd_of ≡ fd_of
      → All (IsTimely listen_socket base fd_of) turns
      → base + 1000 < 2 ^ 64
      → Within base m s
      → m + total listen_socket fd_of turns ≤ 2 ^ 57
      → Returns
          (Served base m (total listen_socket fd_of turns) s)
          (rounds close_at listen_socket turns s)
  unfolding rounds
  rounds-Served fd_of m [] s fds timely no_wrap within small = returns (Served-none base m s within)
  rounds-Served fd_of m (t ∷ turns) s fds timely no_wrap within small =
      Returns-bind (round-Served fd_of m t s fds timely.0 no_wrap within (omega arith))
        λ (time, u) first.
          Returns-map
            (rounds-Served fd_of (m + all_brought listen_socket fd_of t.events) turns u
              (first.fd_of ∙ fds) timely.1 no_wrap first.within (omega arith))
            (λ v later.
              Served-step base m (all_brought listen_socket fd_of t.events)
                (total listen_socket fd_of turns) s u v first later)
