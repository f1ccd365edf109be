-- ===== src/Http/ReadLoop/Tests.antt =====
-- A request read in two parts round the end of the ring, and the theorems at such inputs.
use sginx.Base.{fill, ℕ, ◌≡◌, refl, true, false, Option, none, some, List, [], ◌∷◌, arith}
use sginx.Base.Run.{Run, ok, Returns}
use sginx.Http.{Request, start}
use sginx.Timer.{Timers, Time}
use sginx.Http.ReadLoop.{End, drained, read_loop, request_run}
use sginx.Http.ReadLoop.Ring.{HasRoom, Stored}
use sginx.Http.ReadLoop.Rounds.{AreReads, answers_of, joined, request_run_correct}

-- a request that ends at a position, with the start of what was not parsed
abbrev at_positions : ℕ → ℕ → Request
at_positions pos last = record {
  root = 1;
  fd = 5;
  epfd = 6;
  buf = λ i. 65;
  pos = pos;
  last = last;
  state = start;
  begin = none;
  request_start = none;
  method_end = none;
  method = 0;
  uri_start = none;
  uri_end = none;
  http_major = 0;
  http_minor = 0;
  request_end = none;
  list = [];
  cur_header_key_start = none;
  cur_header_key_end = none;
  cur_header_value_start = none;
  cur_header_value_end = none;
}

abbrev timers : Timers
timers = record {
  queue = record { node = λ i. 300; block = 1; cells = 11; size = 1; max_size = 10; frees = [] };
  now = 0;
  node = λ a. record { key = 50; del = false; handler = none; request = 700 };
  timer = λ r. some 300;
  calls = [];
}

abbrev time : Time
time = record { sec = 1; usec = 2 }

-- two bytes up to the end of the ring, and three at its start
abbrev chunks : List (List ℕ)
chunks = (71 ∷ 69 ∷ []) ∷ (84 ∷ 32 ∷ 47 ∷ []) ∷ []

abbrev byte_of : Run (End × Request) → ℕ → Option ℕ
byte_of (ok (e, r)) i = some (r.buf i)
byte_of _ i = none

wrap_test : byte_of (read_loop (answers_of chunks) (at_positions 8120 8122)) 2 ≡ some 47
unfolding read_loop fill
wrap_test = refl

chunks-AreReads : AreReads chunks (at_positions 8120 8122)
chunks-AreReads = (omega arith, ground arith, (omega arith, ground arith, tt))

room : HasRoom (at_positions 8120 8122)
room = record { ordered = omega arith; room = omega arith; small = omega arith }

request_run_correct_example :
    Returns
      (λ (t', e, r').
        ((t'.node 300).del ≡ true)
        × (e ≡ drained)
        × Stored (at_positions 8120 8122) (joined chunks) r')
      (request_run timers 700 time (answers_of chunks) (at_positions 8120 8122))
request_run_correct_example =
    request_run_correct timers 700 300 time chunks (at_positions 8120 8122) refl room
      chunks-AreReads (omega arith)

full_room : HasRoom (at_positions 0 8123)
full_room = record { ordered = omega arith; room = omega arith; small = omega arith }
