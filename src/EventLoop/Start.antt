-- ===== src/EventLoop/Start.antt =====
-- main of src/core/sgx_rush.c, up to its loop, and with it. The process has no memory for a failure:
-- only that of sigaction ends it. The variable `port` has no value of its own when it is used. The
-- loop's number of events has no value, since sgx_epool_wait returns nothing: any events may come. As in Conf,
-- `conf_buf` has no end.
use sginx.Base.{ℕ, ◌+◌, ◌-◌, ◌^◌, Bool, Option, none, some, List, [], ◌∷◌, write, if◌then◌else◌}
use sginx.Base.Run.{Run, ok, fault, ◌>>=◌}
use sginx.PriorityQueue.{Block}
use sginx.Timer.{Timers, Time, timer_init}
use sginx.Conf.{Reading, read_conf}
use sginx.Http.{Request}
use sginx.Http.Handle.{init_request}
use sginx.EventLoop.{Loop, Turn, rounds}
use sginx.EventLoop.Epoll.{Epolls, epoll_create, epoll_add}
use sginx.EventLoop.Sockets.{Sockets, Answers, get_listen_fd, socket_unblock}

-- what main finds: the sockets, the timers, epoll, the memory of requests, the variables `config`,
-- `conf_buf` and `port`, and the address of `conf_buf`
pub record Before : Type 0 where
  pub sockets : Sockets
  pub timers : Timers
  pub epolls : Epolls
  pub request : ℕ → Request
  pub reading : Reading
  pub port : ℕ
  pub conf_buf : ℕ
  pub root : ℕ

-- what main is answered: the configuration file, whether sigaction succeeds, the calls for the socket
-- and of fcntl, epoll_create1, the malloc of `events`, epoll_ctl, the malloc of `event_request`, and
-- what sgx_timer_init is answered
pub record Replies : Type 0 where
  pub conf_file : Option (List ℕ)
  pub sigaction : Bool
  pub listen : Answers
  pub first_fcntl : Option ℕ
  pub second_fcntl : Option ℕ
  pub epoll_fd : ℕ
  pub events : Option ℕ
  pub added : Bool
  pub event_request : Option ℕ
  pub queue : Option (Block ℕ)
  pub time : Time

-- the state at the head of the loop
pub record Started : Type 0 where
  pub listen_socket : ℕ
  pub sockets : Sockets
  pub epolls : Epolls
  pub request : ℕ → Request
  pub loop : Loop

-- a descriptor, or -1
abbrev pub fd_value : Option ℕ → ℕ
fd_value none = 2 ^ 32 - 1
fd_value (some fd) = fd

-- `config.root`: a place in `conf_buf`, or what the variable held before
abbrev pub root_value : Before → Option ℕ → ℕ
root_value b none = b.root
root_value b (some place) = b.conf_buf + place

-- behind the malloc of `event_request`: without memory NULL is written through
abbrev pub with_request :
    Before → Replies → Sockets → Epolls → (listen_socket root : ℕ) → Option ℕ → Run Started
with_request b a s e listen_socket root none = fault
with_request b a s e listen_socket root (some p) =
    let request = write b.request p (init_request (b.request p) listen_socket a.epoll_fd root) in
    ok (record {
      listen_socket = listen_socket;
      sockets = s;
      epolls = epoll_add e a.epoll_fd listen_socket (some p) a.added;
      request = request;
      loop = record {
        timers = timer_init b.timers a.queue a.time;
        fd_of = λ q. (request q).fd;
        registered = record { epfd = some a.epoll_fd; fd = listen_socket; ptr = some p } ∷ [];
        closed = [];
        freed = [];
      };
    })

-- behind sigaction
abbrev pub set_up : Before → Replies → Option ℕ → Run Started
set_up b a root =
    let (fd, s1) = get_listen_fd b.sockets a.listen b.port in
    let listen_socket = fd_value fd in
    let (done, s2) = socket_unblock s1 listen_socket a.first_fcntl a.second_fcntl in
    let (epoll_fd, e) = epoll_create b.epolls a.epoll_fd a.events in
    with_request b a s2 e listen_socket (root_value b root) a.event_request

-- up to the loop; `none` is exit(EXIT_FAILURE)
unfoldable pub main_start : Before → Replies → Run (Option Started)
main_start b a = read_conf a.conf_file b.reading 8192 >>= λ o.
    if a.sigaction then (set_up b a o.reading.conf.root >>= λ st. ok (some st)) else ok none

-- main, for as many rounds of its loop
abbrev pub run_rounds : ℕ → List Turn → Option Started → Run (Option Loop)
run_rounds close_conn turns none = ok none
run_rounds close_conn turns (some st) =
    rounds close_conn st.listen_socket turns st.loop >>= λ u. ok (some u)

unfoldable pub main : ℕ → Before → Replies → List Turn → Run (Option Loop)
main close_conn b a turns = main_start b a >>= λ st. run_rounds close_conn turns st
