-- ===== src/Http.antt =====
-- src/http/http_request.h, http.h and http_parse.h: the request that the HTTP code shares.
-- A pointer into the request is an offset from its start, so that `buf` begins at `buf_start`;
-- `none` is NULL. The buffer is a ring: the byte of position `pos` is `buf[pos % SGX_MAX_BUF]`.
pub mod Loop
pub mod Line
pub mod Headers
pub mod Handle
pub mod ReadLoop
pub mod Flow
mod Tests
use sginx.Base.{ℕ, ◌+◌, ◌-◌, ◌*◌, ◌%◌, ◌^◌, Bool, Option, List, ◌==◌}

-- SGX_OK, SGX_AGAIN and the parsers' errors 10, 11 and 12. `crash` is no return value: the code
-- writes through a null pointer.
pub data Code : Type 0 where
  sgx_ok sgx_again : Code
  invalid_method invalid_request invalid_header crash : Code

-- The enumerators of both parsers; `start` is the 0 that they share.
pub data State : Type 0 where
  start : State
  method spaces_before_uri after_slash_in_uri : State
  http http_h http_ht http_htt http_http : State
  first_major_digit major_digit first_minor_digit minor_digit : State
  spaces_after_digit almost_done : State
  key spaces_before_colon spaces_after_colon value : State
  cr crlf crlfcr : State

abbrev pub max_buf : ℕ
max_buf = 8124

-- the bytes of `root`, `fd` and `epfd`, which stand before `buf`
abbrev pub buf_start : ℕ
buf_start = 16

-- SGX_HTTP_UNKNOWN, SGX_HTTP_GET, SGX_HTTP_HEAD, SGX_HTTP_POST
abbrev pub method_unknown : ℕ
method_unknown = 1

abbrev pub method_get : ℕ
method_get = 2

abbrev pub method_head : ℕ
method_head = 4

abbrev pub method_post : ℕ
method_post = 8

-- sgx_http_header
pub record Header : Type 0 where
  pub key_start : Option ℕ
  pub key_end : Option ℕ
  pub value_start : Option ℕ
  pub value_end : Option ℕ

-- sgx_http_request, less the path and query fields that nothing uses, and the timer, which stands
-- in the model of src/event/event_timer.c. `list` holds the headers, the newest first. `begin` is
-- the field `start` that the request line's parser writes and the struct does not declare.
pub record Request : Type 0 where
  pub root : ℕ
  pub fd : ℕ
  pub epfd : ℕ
  pub buf : ℕ → ℕ
  pub pos : ℕ
  pub last : ℕ
  pub state : State
  pub begin : Option ℕ
  pub request_start : Option ℕ
  pub method_end : Option ℕ
  pub method : ℕ
  pub uri_start : Option ℕ
  pub uri_end : Option ℕ
  pub http_major : ℕ
  pub http_minor : ℕ
  pub request_end : Option ℕ
  pub list : List Header
  pub cur_header_key_start : Option ℕ
  pub cur_header_key_end : Option ℕ
  pub cur_header_value_start : Option ℕ
  pub cur_header_value_end : Option ℕ

abbrev pub cr_char : ℕ
cr_char = 13

abbrev pub lf_char : ℕ
lf_char = 10

-- `(u_char *)&request -> buf[pos % SGX_MAX_BUF]`
abbrev pub at : ℕ → ℕ
at pos = buf_start + pos % max_buf

-- the byte at an address inside the buffer
abbrev pub byte_at : Request → ℕ → ℕ
byte_at r a = r.buf (a - buf_start)

-- an int as its bit pattern: sums and products wrap
abbrev pub int32 : ℕ → ℕ
int32 n = n % 2 ^ 32

-- sgx_str3_cmp, sgx_str3Ocmp and sgx_str4cmp: the word at `m`, its first byte the lowest
abbrev pub str_cmp : Request → ℕ → ℕ → ℕ → ℕ → ℕ → Bool
str_cmp r m c0 c1 c2 c3 =
    byte_at r m
      + 2 ^ 8 * byte_at r (m + 1)
      + 2 ^ 16 * byte_at r (m + 2)
      + 2 ^ 24 * byte_at r (m + 3)
    == c0 + 2 ^ 8 * c1 + 2 ^ 16 * c2 + 2 ^ 24 * c3

-- The end of one round of a parser's loop: it goes on in a state, it returns a code and leaves
-- `pos` and `state` of the request alone, or it jumps to `done`.
pub data Step : Type 0 where
  go : State → Request → Step
  stop : Code → Request → Step
  done : Request → Step
