-- ===== src/Http/Handle/Tests.antt =====
-- A request with two headers, and the theorems at it.
use sginx.Base.{ℕ, ◌≡◌, refl, Option, none, some, List, [], ◌∷◌, cell, All}
use sginx.Base.Run.{Run, ok}
use sginx.Http.{Header, Request, start}
use sginx.Http.Handle.{Out, handle_header}
use sginx.Http.Handle.Fields.{IsPlaced, placed, answered, handle_header_exact}

-- "C:KEEP", with the beginnings of a name and of a value
abbrev bytes : List ℕ
bytes = b'C' ∷ b':' ∷ b'K' ∷ b'E' ∷ b'E' ∷ b'P' ∷ []

abbrev short : Header
short = record {
  key_start = some 16;
  key_end = some 17;
  value_start = some 18;
  value_end = some 22;
}

abbrev request : Request
request = record {
  root = 0;
  fd = 5;
  epfd = 6;
  buf = cell bytes;
  pos = 6;
  last = 6;
  state = start;
  begin = none;
  request_start = none;
  method_end = none;
  method = 2;
  uri_start = none;
  uri_end = none;
  http_major = 1;
  http_minor = 1;
  request_end = none;
  list = short ∷ short ∷ [];
  cur_header_key_start = none;
  cur_header_key_end = none;
  cur_header_value_start = none;
  cur_header_value_end = none;
}

abbrev out : Out
out = record { fd = 5; keep_alive = 0; mtime = 1000; modified = 1; status = 200 }

abbrev no_time : (ℕ → ℕ) → Option ℕ
no_time text = none

abbrev keep_alive_of : Run (Request × Out) → Option ℕ
keep_alive_of (ok (r, o)) = some o.keep_alive
keep_alive_of _ = none

prefix_test : keep_alive_of (handle_header no_time request out) ≡ some 1
unfolding handle_header
prefix_test = refl

headers-IsPlaced : All IsPlaced request.list
headers-IsPlaced = (placed 16 17 18 22, (placed 16 17 18 22, tt))

handle_header_exact_example :
    handle_header no_time request out
    ≡ ok (record request { list = [] }, answered no_time request out (short ∷ short ∷ []))
handle_header_exact_example = handle_header_exact no_time request out headers-IsPlaced
