-- ===== src/Http/Line.antt =====
-- sgx_http_parse_request_line of src/http/http_parse.c.
-- `c >> 'Z'` shifts an int by 90 places, which C leaves undefined: what the compiled code makes
-- of it is the parameter `shift_z`.
pub mod Feed
pub mod Segments
pub mod Accept
pub mod Resume
pub mod Method
use sginx.Base.{
  ℕ, zero, suc, ◌+◌, ◌-◌, ◌*◌, ◌%◌, Bool, not, ◌&&◌, ◌||◌, Option, none, some, List, [], ◌∷◌, ltb,
  ◌==◌, if◌then◌else◌,
}
use sginx.Http.{
  Code, sgx_ok, sgx_again, invalid_method, invalid_request, State, start, method, spaces_before_uri,
  after_slash_in_uri, http, http_h, http_ht, http_htt, http_http, first_major_digit, major_digit,
  first_minor_digit, minor_digit, spaces_after_digit, almost_done, max_buf, method_unknown,
  method_get, method_head, method_post, Request, cr_char, lf_char, at, int32, str_cmp, Step, go,
  stop, done,
}
use sginx.Http.Loop.{parse}

-- the switch over `p - method_pos`
unfoldable pub method_code : Request → ℕ → ℕ
method_code r p = elim r.request_start [
  | none ↦ method_unknown
  | some m ↦
      if p == m + 3
      then if str_cmp r m b'G' b'E' b'T' b' ' then method_get else r.method
      else if p == m + 4
      then if str_cmp r m b'P' b'O' b'S' b'T'
        then method_post
        else if str_cmp r m b'H' b'E' b'A' b'D'
        then method_head
        else r.method
      else method_unknown
]

-- the states that expect one character of "HTTP/"
unfoldable pub expect : ℕ → State → ℕ → Request → Step
expect wanted next c r = if c == wanted then go next r else stop invalid_request r

abbrev pub is_digit : ℕ → Bool
is_digit c = not (ltb c b'0' || ltb b'9' c)

-- the states behind the path
unfoldable pub version_step : State → ℕ → ℕ → Request → Step
version_step first_major_digit p c r =
    if ltb c b'1' || ltb b'9' c
    then stop invalid_request r
    else go major_digit (record r { http_major = c - b'0' })
version_step major_digit p c r =
    if c == b'.'
    then go first_minor_digit r
    else if is_digit c
    then go major_digit (record r { http_major = int32 (r.http_major * 10 + b'c' - 0) })
    else stop invalid_request r
version_step first_minor_digit p c r =
    if is_digit c
    then go minor_digit (record r { http_minor = c - b'0' })
    else stop invalid_request r
version_step minor_digit p c r =
    if c == cr_char
    then go almost_done r
    else if c == lf_char
    then done r
    else if c == b' '
    then go spaces_after_digit r
    else if is_digit c
    then go minor_digit (record r { http_minor = int32 (r.http_minor * 10 + c - b'0') })
    else stop invalid_request r
version_step spaces_after_digit p c r =
    if c == b' '
    then go spaces_after_digit r
    else if c == cr_char
    then go almost_done r
    else if c == lf_char
    then done r
    else stop invalid_request r
version_step almost_done p c r =
    let ended = record r { request_end = some (p - 1) } in
    if c == lf_char then done ended else stop invalid_request ended
version_step other p c r = go other r

-- the label `done`
abbrev pub finish : ℕ → Request → Code × Request
finish pos r = (
  sgx_ok,
  record r {
    pos = pos + 1;
    request_end = elim r.request_end [ none ↦ some (at pos) | some e ↦ some e ];
    state = start;
  },
)

module _ (shift_z : ℕ → ℕ) where
  -- `(c < 'A' || c >> 'Z') && c != '_'`
  unfoldable pub bad_method_char : ℕ → Bool
  bad_method_char c = (ltb c b'A' || not (shift_z c == 0)) && not (c == b'_')

  -- the switch over the state
  unfoldable pub line_step : State → ℕ → ℕ → Request → Step
  unfolding method_code expect version_step bad_method_char
  line_step start p c r =
      let begun = record r { begin = some p } in
      if c == cr_char || c == lf_char
      then go start begun
      else if bad_method_char c
      then stop invalid_method begun
      else go method begun
  line_step method p c r =
      if c == b' '
      then (let ended = record r { method_end = some p } in
          go spaces_before_uri (record ended { method = method_code ended p }))
      else if bad_method_char c
      then stop invalid_method r
      else go method r
  line_step spaces_before_uri p c r =
      if c == b'/'
      then go after_slash_in_uri (record r { uri_start = some p })
      else if c == b' '
      then go spaces_before_uri r
      else stop invalid_request r
  line_step after_slash_in_uri p c r =
      if c == b' ' then go http (record r { uri_end = some p }) else go after_slash_in_uri r
  line_step http p c r =
      if c == b' ' then go http r else if c == b'H' then go http_h r else stop invalid_request r
  line_step http_h p c r = expect b'T' http_ht c r
  line_step http_ht p c r = expect b'T' http_htt c r
  line_step http_htt p c r = expect b'P' http_http c r
  line_step http_http p c r = expect b'/' first_major_digit c r
  line_step other p c r = version_step other p c r

  -- sgx_http_parse_request_line
  unfoldable pub parse_request_line : Request → Code × Request
  unfolding parse line_step
  parse_request_line r = parse line_step finish r
