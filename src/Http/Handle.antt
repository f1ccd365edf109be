-- ===== src/Http/Handle.antt =====
-- src/http/http_request.c: what the header fields of a request ask for, and the other small
-- functions of that file.
-- `buf` behind SGX_MAX_BUF stands for the memory behind the buffer. strptime and mktime are the
-- parameter `client_time`, which gets the bytes from the value on and answers `none` where strptime
-- refuses them; times are whole seconds, so that a difference below SGX_TIME_EPS is none. The value
-- `len` is the distance as a size_t, which its way through an int keeps. sgx_http_handle_header
-- frees each header and reads its link after that; free is taken to leave the cells alone.
pub mod Names
pub mod Fields
mod Tests
use sginx.Base.{
  ℕ, zero, suc, ◌+◌, ◌-◌, ◌%◌, ◌^◌, Bool, true, false, ◌&&◌, ◌||◌, not, Option, none, some, List,
  [], ◌∷◌, ltb, ◌==◌, if◌then◌else◌,
}
use sginx.Base.Run.{Run, ok, fault, ◌>>=◌}
use sginx.Http.{Header, Request, start, byte_at}

-- sgx_http_out
pub record Out : Type 0 where
  pub fd : ℕ
  pub keep_alive : ℕ
  pub mtime : ℕ
  pub modified : ℕ
  pub status : ℕ

-- sgx_init_request; the headers of the list are dropped
unfoldable pub init_request : Request → (fd epfd root : ℕ) → Request
init_request r fd epfd root = record r {
  fd = fd;
  epfd = epfd;
  last = 0;
  pos = 0;
  state = start;
  root = root;
  list = [];
}

-- sgx_init_out
unfoldable pub init_out : Out → ℕ → Out
init_out out fd = record out { fd = fd; keep_alive = 0; modified = 1; status = 0 }

-- sgx_free_request and sgx_free_out do nothing
abbrev pub free_request : Request → Request
free_request r = r

abbrev pub free_out : Out → Out
free_out out = out

-- the descriptors that were closed and the requests that were freed, the latest first
pub record Closing : Type 0 where
  pub closed : List ℕ
  pub freed : List ℕ

-- a request was freed, and its memory was not given out again
abbrev pub is_freed : List ℕ → ℕ → Bool
is_freed [] p = false
is_freed (q ∷ freed) p = (q == p) || is_freed freed p

-- sgx_http_close_conn, for a request at an address; `fd_of` is the field `fd` of every request. A
-- request that was freed is neither read nor freed again: that is a fault.
unfoldable pub close_conn : (fd_of : ℕ → ℕ) → ℕ → Closing → Run Closing
close_conn fd_of p s =
    if is_freed s.freed p
    then fault
    else ok (record { closed = fd_of p ∷ s.closed; freed = p ∷ s.freed })

-- strncmp and strncasecmp, as a test for 0: at most `n` characters are compared, up to the NUL that
-- ends `name`; `fold` is the identity, or tolower
unfoldable pub same_text : (ℕ → ℕ) → (n : ℕ) → (ℕ → ℕ) → (name : List ℕ) → Bool
same_text fold zero s name = true
same_text fold (suc k) s [] = s 0 == 0
same_text fold (suc k) s (c ∷ name) =
    let rest = same_text fold k (λ i. s (suc i)) name in
    if fold (s 0) == fold c then rest else false

abbrev pub identity : ℕ → ℕ
identity c = c

-- tolower of the C locale
abbrev pub lower : ℕ → ℕ
lower c = if ltb c b'A' || ltb b'Z' c then c else c + 32

-- the handlers of sgx_http_headers_in
pub data Handler : Type 0 where
  ignore connection if_modified_since : Handler

pub record Entry : Type 0 where
  pub name : List ℕ
  pub handler : Handler

abbrev pub host_name : List ℕ
host_name = b'H' ∷ b'o' ∷ b's' ∷ b't' ∷ []

abbrev pub connection_name : List ℕ
connection_name = b'C' ∷ b'o' ∷ b'n' ∷ b'n' ∷ b'e' ∷ b'c' ∷ b't' ∷ b'i' ∷ b'o' ∷ b'n' ∷ []

abbrev pub if_modified_since_name : List ℕ
if_modified_since_name =
    b'I' ∷ b'f' ∷ b'-' ∷ b'M' ∷ b'o' ∷ b'd' ∷ b'i' ∷ b'f' ∷ b'i' ∷ b'e' ∷ b'd' ∷ b'-' ∷ b'S' ∷ b'i'
    ∷ b'n' ∷ b'c' ∷ b'e' ∷ []

abbrev pub keep_alive_text : List ℕ
keep_alive_text = b'k' ∷ b'e' ∷ b'e' ∷ b'p' ∷ b'-' ∷ b'a' ∷ b'l' ∷ b'i' ∷ b'v' ∷ b'e' ∷ []

-- sgx_http_headers_in
abbrev pub headers_in : List Entry
headers_in =
    record { name = host_name; handler = ignore }
    ∷ record { name = connection_name; handler = connection }
    ∷ record { name = if_modified_since_name; handler = if_modified_since }
    ∷ record { name = []; handler = ignore }
    ∷ []

-- the bytes from an address on, and the distance of two addresses as a size_t
abbrev pub bytes_from : Request → ℕ → ℕ → ℕ
bytes_from r a i = byte_at r (a + i)

abbrev pub distance : ℕ → ℕ → ℕ
distance first last = (last + 2 ^ 64 - first) % 2 ^ 64

module _ (client_time : (ℕ → ℕ) → Option ℕ) where
  -- sgx_http_process_connection
  unfoldable pub process_connection : Out → (ℕ → ℕ) → ℕ → Out
  process_connection out text len =
      if same_text lower len text keep_alive_text then record out { keep_alive = 1 } else out

  -- the end of sgx_http_process_if_modified_since; `out -> status - SGX_HTTP_NOT_MODIFIED;` has no
  -- effect
  abbrev pub compare_time : Out → Option ℕ → Out
  compare_time out none = out
  compare_time out (some time) = if out.mtime == time then record out { modified = 0 } else out

  -- a handler is called with the bytes of the value and their number
  unfoldable pub process : Handler → Out → (ℕ → ℕ) → ℕ → Out
  unfolding process_connection
  process ignore out text len = out
  process connection out text len = process_connection out text len
  process if_modified_since out text len = compare_time out (client_time text)

  abbrev pub call_handler : Handler → Request → Out → Option ℕ → Option ℕ → Run Out
  call_handler handler r out (some first) (some last) =
      ok (process handler out (bytes_from r first) (distance first last))
  call_handler handler r out _ _ = fault

  -- the loop over sgx_http_headers_in, up to the entry with the empty name
  unfoldable pub dispatch : List Entry → Request → Out → Header → (first last : ℕ) → Run Out
  unfolding same_text process
  dispatch [] r out h first last = fault
  dispatch (entry ∷ entries) r out h first last =
      let later = dispatch entries r out h first last in
      let found = same_text identity (distance first last) (bytes_from r first) entry.name in
      let tried =
        if found then call_handler entry.handler r out h.value_start h.value_end else later in
      elim entry.name [ [] ↦ ok out | _ ∷ _ ↦ tried ]

  abbrev pub handle_one : Request → Out → Header → Option ℕ → Option ℕ → Run Out
  handle_one r out h (some first) (some last) = dispatch headers_in r out h first last
  handle_one r out h _ _ = fault

  -- the loop of sgx_http_handle_header, over the headers that are left
  pub handle_list : List Header → Request → Out → Run (Request × Out)
  unfolding dispatch
  handle_list [] r out = ok (r, out)
  handle_list (h ∷ hs) r out = do
    out' ← handle_one r out h h.key_start h.key_end
    handle_list hs (record r { list = hs }) out'

  -- sgx_http_handle_header
  unfoldable pub handle_header : Request → Out → Run (Request × Out)
  unfolding handle_list
  handle_header r out = handle_list r.list r out

-- get_shortmsg_from_status_code
pub data ShortMessage : Type 0 where
  ok_text not_modified not_found unknown : ShortMessage

unfoldable pub get_shortmsg_from_status_code : ℕ → ShortMessage
get_shortmsg_from_status_code status_code =
    if status_code == 200
    then ok_text
    else if status_code == 304
    then not_modified
    else if status_code == 404
    then not_found
    else unknown
