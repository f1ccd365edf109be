-- ===== src/Http/Headers.antt =====
-- sgx_http_parse_request_body of src/http/http_parse.c, which parses the header fields.
-- Whether malloc answers for the next header is the parameter `alloc`, asked with the number of
-- headers before it. `list_add` puts the new header in front of the list.
pub mod Resume
pub mod Accept
pub mod Empty
use sginx.Base.{ℕ, ◌+◌, ◌-◌, Bool, true, false, not, ◌||◌, some, ◌∷◌, ◌==◌, if◌then◌else◌, length}
use sginx.Http.{
  Code, sgx_ok, invalid_header, crash, State, start, key, spaces_before_colon, spaces_after_colon,
  value, cr, crlf, crlfcr, Header, Request, cr_char, lf_char, Step, go, stop, done,
}
use sginx.Http.Loop.{parse}

-- the header that the current pointers describe
abbrev pub current : Request → Header
current r = record {
  key_start = r.cur_header_key_start;
  key_end = r.cur_header_key_end;
  value_start = r.cur_header_value_start;
  value_end = r.cur_header_value_end;
}

-- the label `done`
abbrev pub finish : ℕ → Request → Code × Request
finish pos r = (sgx_ok, record r { pos = pos + 1; state = start })

-- `state == 0`
abbrev pub is_start : State → Bool
is_start start = true
is_start other = false

module _ (alloc : ℕ → Bool) where
  -- the switch over the state
  unfoldable pub header_step : State → ℕ → ℕ → Request → Step
  header_step start p c r =
      if c == cr_char || c == lf_char
      then go start r
      else go key (record r { cur_header_key_start = some p })
  header_step key p c r =
      if c == b' '
      then go spaces_before_colon (record r { cur_header_key_end = some p })
      else if c == b':'
      then go spaces_after_colon (record r { cur_header_key_end = some p })
      else go key r
  header_step spaces_before_colon p c r =
      if c == b' '
      then go spaces_before_colon r
      else if c == b':'
      then go spaces_after_colon r
      else stop invalid_header r
  header_step spaces_after_colon p c r =
      if c == b' '
      then go spaces_after_colon r
      else go value (record r { cur_header_value_start = some p })
  header_step value p c r =
      if c == cr_char
      then go cr (record r { cur_header_value_end = some p })
      else if c == lf_char
      then go crlf (record r { cur_header_value_end = some p })
      else go value r
  header_step cr p c r =
      if c == lf_char
      then if alloc (length r.list)
        then go crlf (record r { list = current r ∷ r.list })
        else stop crash r
      else stop invalid_header r
  header_step crlf p c r =
      if c == cr_char then go crlfcr r else go key (record r { cur_header_key_start = some p })
  header_step crlfcr p c r = if c == lf_char then done r else stop invalid_header r
  header_step other p c r = go other r

  -- sgx_http_parse_request_body behind its check of the state, which only logs
  unfoldable pub parse_request_body : Request → Code × Request
  unfolding parse header_step
  parse_request_body r = parse header_step finish r

  -- sgx_http_parse_request_body with its check: whether "state should be 0" is logged, and what the
  -- call comes to
  unfoldable pub request_body : Request → Bool × (Code × Request)
  unfolding parse_request_body
  request_body r = (not (is_start r.state), parse_request_body r)
