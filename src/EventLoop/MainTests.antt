-- ===== src/EventLoop/MainTests.antt =====
-- main with two rounds in which a client connects, and the theorem at it.
use sginx.Base.{List, Option, ℕ, ◌≡◌, refl, true, false, none, some, [], ◌∷◌}
use sginx.Base.Run.{Run, ok, fault}
use sginx.PriorityQueue.{Block}
use sginx.Timer.{Time, timer_init, timer_find, handle_expire_timers, timer_add}
use sginx.Http.{Request, start}
use sginx.Conf.{read_conf}
use sginx.Http.Handle.{init_request, close_conn}
use sginx.EventLoop.{
  perform_calls, rounds, round, handle_events, handle_event, accept_loop, accept_one, Loop, Event,
  connection, no_more, Turn,
}
use sginx.EventLoop.Start.{Before, Replies, main, main_start}
use sginx.EventLoop.Sockets.{get_listen_fd, socket_unblock}

abbrev no_request : Request
no_request = record {
  root = 0;
  fd = 0;
  epfd = 0;
  buf = λ i. 0;
  pos = 0;
  last = 0;
  state = start;
  begin = none;
  request_start = none;
  method_end = none;
  method = 0;
  uri_start = none;
  uri_end = none;
  http_major = 0;
  http_minor = 0;
  request_end = none;
  list = [];
  cur_header_key_start = none;
  cur_header_key_end = none;
  cur_header_value_start = none;
  cur_header_value_end = none;
}

abbrev before : Before
before = record {
  sockets = record {
    opened = [];
    reuse = λ fd. false;
    bound = λ fd. none;
    listening = λ fd. false;
    flags = λ fd. 0;
  };
  timers = record {
    queue = record { node = λ i. 0; block = 0; cells = 0; size = 0; max_size = 0; frees = [] };
    now = 0;
    node = λ a. record { key = 0; del = true; handler = none; request = 0 };
    timer = λ r. none;
    calls = [];
  };
  epolls = record { calls = []; events = none; logged = 0 };
  request = λ q. no_request;
  reading = record { buf = λ i. 0; conf = record { root = none; port = 0; thread_num = 0 } };
  port = 8080;
  conf_buf = 5000;
  root = 0;
}

abbrev time : Time
time = record { sec = 2; usec = 0 }

abbrev spare : Block ℕ
spare = record { name = 4; content = λ i. 0 }

-- no configuration file; the listening socket is 3, with its request at 900
abbrev replies : Replies
replies = record {
  conf_file = none;
  sigaction = true;
  listen = record { socket = some 3; setsockopt = true; bind = true; listen = true };
  first_fcntl = some 0;
  second_fcntl = some 0;
  epoll_fd = 4;
  events = some 700;
  added = true;
  event_request = some 900;
  queue = some spare;
  time = time;
}

-- a client with the descriptor 8
abbrev arrival : Event
arrival = record {
  request = 900;
  err = false;
  hup = false;
  readable = true;
  accepts =
      connection
        (record { fd = 8; new_request = some 950; node = some 300; grown = none; time = time })
      ∷ no_more
      ∷ [];
}

abbrev turn : Turn
turn = record {
  clock = λ i. time;
  clock' = λ i. time;
  answers = λ i. none;
  answers' = λ i. none;
  events = arrival ∷ [];
}

-- another client, with the descriptor 9, in a second round at the same time
abbrev second_turn : Turn
second_turn = record turn {
  events =
      record arrival {
        accepts =
            connection (record {
              fd = 9;
              new_request = some 951;
              node = some 301;
              grown = none;
              time = time;
            })
            ∷ no_more
            ∷ [];
      }
      ∷ [];
}

-- a later round, after a second, in which nothing happens
abbrev late : Turn
late = record {
  clock = λ i. record { sec = 3; usec = 0 };
  clock' = λ i. record { sec = 3; usec = 0 };
  answers = λ i. none;
  answers' = λ i. none;
  events = [];
}

abbrev freed_of : Run (Option Loop) → Option (List ℕ)
freed_of (ok (some u)) = some u.freed
freed_of _ = none

-- after a second the request of the listening socket is freed
listener_test : freed_of (main 77 before replies (turn ∷ late ∷ [])) ≡ some (900 ∷ [])
unfolding main main_start read_conf rounds round handle_events handle_event accept_loop accept_one
    timer_init timer_find handle_expire_timers timer_add get_listen_fd socket_unblock init_request
    perform_calls close_conn
listener_test = refl

-- with two clients it is freed twice
twice_test : main 77 before replies (turn ∷ second_turn ∷ late ∷ []) ≡ fault
unfolding main main_start read_conf rounds round handle_events handle_event accept_loop accept_one
    timer_init timer_find handle_expire_timers timer_add get_listen_fd socket_unblock init_request
    perform_calls close_conn
twice_test = refl

abbrev both_turns : List Turn
both_turns = turn ∷ second_turn ∷ []
