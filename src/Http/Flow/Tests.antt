-- ===== src/Http/Flow/Tests.antt =====
-- A request that comes in two reads over the end of the ring, and the theorem at it.
use sginx.Base.{ℕ, ◌≡◌, refl, true, false, none, some, List, [], ◌∷◌, arith}
use sginx.Base.Run.{Returns}
use sginx.Timer.{Timers, Time}
use sginx.Http.{Request, start}
use sginx.Http.Line.Segments.{ShiftsOut, decimal}
use sginx.Http.Line.Accept.{RequestLine, IsRequestLine}
use sginx.Http.Headers.Accept.{Field, IsField}
use sginx.Http.Handle.{Out}
use sginx.Http.ReadLoop.{drained, request_run}
use sginx.Http.ReadLoop.Ring.{HasRoom}
use sginx.Http.ReadLoop.Rounds.{AreReads, answers_of}
use sginx.Http.Flow.Texts.{some_field_asks}
use sginx.Http.Flow.Served.{IsServed, request_run-IsServed}

-- an empty ring, eight cells before its end
abbrev empty_ring : Request
empty_ring = record {
  root = 1;
  fd = 5;
  epfd = 6;
  buf = λ i. 0;
  pos = 8116;
  last = 8116;
  state = start;
  begin = none;
  request_start = none;
  method_end = none;
  method = 0;
  uri_start = none;
  uri_end = none;
  http_major = 0;
  http_minor = 0;
  request_end = none;
  list = [];
  cur_header_key_start = none;
  cur_header_key_end = none;
  cur_header_value_start = none;
  cur_header_value_end = none;
}

abbrev timers : Timers
timers = record {
  queue = record { node = λ i. 300; block = 1; cells = 11; size = 1; max_size = 10; frees = [] };
  now = 0;
  node = λ a. record { key = 50; del = false; handler = none; request = 700 };
  timer = λ r. some 300;
  calls = [];
}

abbrev deadline : Time
deadline = record { sec = 1; usec = 2 }

-- "GET /a HTTP/1.1"
abbrev line : RequestLine
line = record {
  method_head = b'G';
  method_tail = b'E' ∷ b'T' ∷ [];
  path = b'a' ∷ [];
  major = b'1';
  minor_head = b'1';
  minor_tail = [];
}

-- "Connection: keep-alive"
abbrev connection : Field
connection = record {
  key_head = b'C';
  key_tail = b'o' ∷ b'n' ∷ b'n' ∷ b'e' ∷ b'c' ∷ b't' ∷ b'i' ∷ b'o' ∷ b'n' ∷ [];
  gap = b' ' ∷ [];
  value_head = b'k';
  value_tail = b'e' ∷ b'e' ∷ b'p' ∷ b'-' ∷ b'a' ∷ b'l' ∷ b'i' ∷ b'v' ∷ b'e' ∷ [];
}

asks_test : some_field_asks (connection ∷ []) ≡ true
asks_test = refl

abbrev first_read : List ℕ
first_read = b'G' ∷ b'E' ∷ b'T' ∷ b' ' ∷ b'/' ∷ b'a' ∷ b' ' ∷ b'H' ∷ []

-- the rest of the line, the field and the empty line
abbrev second_read : List ℕ
second_read =
    b'T' ∷ b'T' ∷ b'P' ∷ b'/' ∷ b'1' ∷ b'.' ∷ b'1' ∷ 13 ∷ 10 ∷ b'C' ∷ b'o' ∷ b'n' ∷ b'n' ∷ b'e'
    ∷ b'c' ∷ b't' ∷ b'i' ∷ b'o' ∷ b'n' ∷ b':' ∷ b' ' ∷ b'k' ∷ b'e' ∷ b'e' ∷ b'p' ∷ b'-' ∷ b'a'
    ∷ b'l' ∷ b'i' ∷ b'v' ∷ b'e' ∷ 13 ∷ 10 ∷ 13 ∷ 10 ∷ []

abbrev chunks : List (List ℕ)
chunks = first_read ∷ second_read ∷ []

chunks-AreReads : AreReads chunks empty_ring
chunks-AreReads = (omega arith, ground arith, (omega arith, ground arith, tt))

empty_room : HasRoom empty_ring
empty_room = record { ordered = omega arith; room = omega arith; small = omega arith }

abbrev no_shift : ℕ → ℕ
no_shift c = 0

no_shift-ShiftsOut : ShiftsOut no_shift
no_shift-ShiftsOut c h = refl

line-IsRequestLine : IsRequestLine line
unfolding decimal
line-IsRequestLine = record {
  method_head = omega arith;
  method_tail = omega arith;
  path = omega arith;
  major_low = omega arith;
  major_high = omega arith;
  minor_head = omega arith;
  minor_tail = tt;
  minor_small = omega arith;
}

connection-IsField : IsField connection
connection-IsField = record {
  key_head = omega arith;
  key_tail = omega arith;
  gap = (refl, tt);
  value_head = omega arith;
  value_tail = omega arith;
}

abbrev out : Out
out = record { fd = 5; keep_alive = 0; mtime = 1000; modified = 1; status = 200 }

request_run-IsServed_example :
    Returns
      (λ (t', e, r').
        (e ≡ drained) × IsServed no_shift (λ n. true) (λ text. none) line (connection ∷ []) out r')
      (request_run timers 700 deadline (answers_of chunks) empty_ring)
request_run-IsServed_example =
    request_run-IsServed no_shift (λ n. true) (λ text. none) no_shift-ShiftsOut (λ n. refl) timers
      700 300 deadline chunks empty_ring line connection [] [] out refl empty_room refl refl refl
      chunks-AreReads (omega arith) refl line-IsRequestLine (connection-IsField, tt) (omega arith)
