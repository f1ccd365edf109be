-- ===== src/Http/Tests.antt =====
-- The parsers on a ring whose text wraps round its end, and the theorems at such inputs.
use sginx.Base.{
  ℕ, false, ◌<◌, ◌||◌, ◌==◌, ◌+◌, ◌%◌, ◌≡◌, refl, Bool, true, none, some, List, [], ◌∷◌, arith,
  cell, length,
}
use sginx.Http.{sgx_ok, start, Request, at}
use sginx.Http.Loop.Resume.{Alike}
use sginx.Http.Line.{parse_request_line}
use sginx.Http.Line.Segments.{ShiftsOut, decimal}
use sginx.Http.Line.Accept.{RequestLine, IsRequestLine, line_text, parsed, parse-accepts}
use sginx.Http.Line.Resume.{request_line-resume}
use sginx.Http.Line.Method.{Bytes}
use sginx.Http.Headers.{parse_request_body, request_body}
use sginx.Http.Headers.Resume.{request_body-resume}
use sginx.Http.Headers.Accept.{
  Field, IsField, block_text, with_fields, tail_text, parse-accepts_fields,
}

abbrev no_shift : ℕ → ℕ
no_shift c = 0

no_shift-ShiftsOut : ShiftsOut no_shift
no_shift-ShiftsOut c h = refl

-- a request whose next byte is the first of `text`, four cells before the end of the ring
abbrev holding : List ℕ → Request
holding text = record {
  root = 1;
  fd = 5;
  epfd = 3;
  buf = λ i. cell text ((i + 4) % 8124) % 256;
  pos = 8120;
  last = 8120 + length text;
  state = start;
  begin = none;
  request_start = some (at 8120);
  method_end = none;
  method = 0;
  uri_start = none;
  uri_end = none;
  http_major = 0;
  http_minor = 0;
  request_end = none;
  list = [];
  cur_header_key_start = none;
  cur_header_key_end = none;
  cur_header_value_start = none;
  cur_header_value_end = none;
}

-- "GET /a HTTP/1.1"
abbrev get_line : RequestLine
get_line = record {
  method_head = b'G';
  method_tail = b'E' ∷ b'T' ∷ [];
  path = b'a' ∷ [];
  major = b'1';
  minor_head = b'1';
  minor_tail = [];
}

abbrev get_request : Request
get_request = holding (line_text get_line)

get_test : parse_request_line no_shift get_request ≡ (sgx_ok, parsed get_line get_request)
unfolding parse_request_line decimal
get_test = refl

get_line-IsRequestLine : IsRequestLine get_line
unfolding decimal
get_line-IsRequestLine = record {
  method_head = omega arith;
  method_tail = omega arith;
  path = omega arith;
  major_low = omega arith;
  major_high = omega arith;
  minor_head = omega arith;
  minor_tail = tt;
  minor_small = omega arith;
}

parse-accepts_example :
    parse_request_line no_shift get_request ≡ (sgx_ok, parsed get_line get_request)
parse-accepts_example =
    parse-accepts no_shift no_shift-ShiftsOut get_line get_request get_line-IsRequestLine refl
      (omega arith) (omega arith)

-- the bytes up to the `T` of "GET", then the rest
request_line-resume_example :
    Alike
      (parse_request_line no_shift
        (record (parse_request_line no_shift (record get_request { last = 8123 })).1 {
          last = 8137;
        }))
      (parse_request_line no_shift (record get_request { last = 8137 }))
unfolding parse_request_line
request_line-resume_example =
    request_line-resume no_shift get_request 8123 8137 (omega arith) (omega arith) refl

get_request-Bytes : Bytes get_request
get_request-Bytes i = omega arith

abbrev m : ℕ
m = at 8120

-- "Host: a"
abbrev host : Field
host = record {
  key_head = b'H';
  key_tail = b'o' ∷ b's' ∷ b't' ∷ [];
  gap = b' ' ∷ [];
  value_head = b'a';
  value_tail = [];
}

abbrev fields_request : Request
fields_request = holding (block_text (host ∷ host ∷ []))

abbrev always : ℕ → Bool
always n = true

host-IsField : IsField host
host-IsField = omega arith

parse-accepts_fields_example : parse_request_body always fields_request ≡ (
  sgx_ok,
  record (with_fields (host ∷ host ∷ []) 8120 fields_request) { pos = 8140; state = start },
)
parse-accepts_fields_example =
    parse-accepts_fields always (λ n. refl) host (host ∷ []) fields_request
      (host-IsField, (host-IsField, tt)) refl (omega arith) (omega arith)

request_body-resume_example :
    let first = request_body always (record fields_request { last = 8126 }) in
    let second = request_body always (record first.1.1 { last = 8140 }) in
    let whole = request_body always (record fields_request { last = 8140 }) in
    Alike second.1 whole.1
    × (start ≡ start → whole.0 ≡ false)
    × (start ≡ start
        → 8120 < 8126
        → (fields_request.buf (8120 % 8124) == 13 || fields_request.buf (8120 % 8124) == 10) ≡ false
        → second.0 ≡ true)
    × (first.0 ≡ true → second.0 ≡ true)
unfolding request_body
request_body-resume_example =
    request_body-resume always fields_request 8126 8140 (omega arith) (omega arith) refl

abbrev empty_request : Request
empty_request = holding (13 ∷ 10 ∷ [])

abbrev lf_request : Request
lf_request = holding (b'H' ∷ tail_text host (10 ∷ 13 ∷ 10 ∷ []))
