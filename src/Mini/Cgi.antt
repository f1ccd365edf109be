-- ===== src/Mini/Cgi.antt =====
-- sgx_request_cgi of src/test/sgx_mini.c, as the calls that the process makes.
-- What pipe and fork answer, what the script prints, the environment and the value that stands in
-- sgx_c before are arguments. The script takes all that it is given: a write into its pipe succeeds.
-- What it prints is a list, so it ends: the read that waits for ever, since sgx_picgi[1] is open in
-- the parent while a script waits for the end of its input, is not modelled.
pub mod Loops
pub mod Ends
pub mod Header
pub mod Posted
mod Tests
use sginx.Base.{
  ℕ, zero, suc, ◌-◌, ◌^◌, Bool, not, ◌&&◌, Option, none, some, List, [], ◌∷◌, ◌++◌, ◌==◌, ltb,
  if◌then◌else◌, write, length, ◌+◌, ◌%◌, ◌/◌,
}
use sginx.Base.Run.{Run, ok, fault, out_of_fuel, ◌>>=◌}
use sginx.Conf.{atoi, begins_with, split_delim}
use sginx.Mini.{get_fd_line, int_buf, is_newline, skip_headers}
use sginx.Mini.Environ.{child_environ}
use sginx.Mini.Request.{same_word, post_word}

-- sgx_pocgi[0] and [1], sgx_picgi[0] and [1]
pub data End : Type 0 where
  po_read po_write pi_read pi_write : End

-- the rsp functions with their status, pipe where it succeeds, close of an end, write to the
-- connection, write to sgx_picgi[1], read of a byte from sgx_pocgi[0], waitpid, and in the child
-- dup2, and execl, which succeeds, with the environment that it finds
pub data Call : Type 0 where
  replied : ℕ → Call
  made_po made_pi : Call
  shut : End → Call
  sent : List ℕ → Call
  fed : ℕ → Call
  fetched : ℕ → Call
  waited : Call
  duplicated : End → ℕ → Call
  executed : List ℕ → List (List ℕ) → Call

-- how fork returns
pub data Forked : Type 0 where
  failed parent child : Forked

pub record System : Type 0 where
  pub first_pipe : Bool
  pub second_pipe : Bool
  pub forked : Forked
  pub output : List ℕ
  pub environ : List (List ℕ)
  pub stale : ℕ

-- "Content-Length:"
abbrev pub length_name : List ℕ
length_name =
    b'C' ∷ b'o' ∷ b'n' ∷ b't' ∷ b'e' ∷ b'n' ∷ b't' ∷ b'-' ∷ b'L' ∷ b'e' ∷ b'n' ∷ b'g' ∷ b't' ∷ b'h'
    ∷ b':' ∷ []

-- the string at an index of sgx_buf; `room` cells of the buffer are left there
unfoldable pub text_at : (room : ℕ) → (ℕ → ℕ) → ℕ → Run (List ℕ)
text_at zero buf i = fault
text_at (suc room) buf i =
    let rest = (text_at room buf (suc i) >>= λ cs. ok (buf i ∷ cs)) in
    if buf i == 0 then ok [] else rest

-- the body of the loop over the headers of a POST, behind `sgx_buf[15] = '\0'`
abbrev pub header_length : (ℕ → ℕ) → ℕ → Run ℕ
header_length buf contlen = text_at int_buf buf 0 >>= λ name.
    let given = (text_at (int_buf - 16) buf 16 >>= λ text. ok (atoi text)) in
    if same_word name length_name then given else ok contlen

-- the loop over the headers of a POST: sgx_contlen, and the bytes that are left
unfoldable pub read_length : ℕ → List ℕ → (ℕ → ℕ) → ℕ → Run (ℕ × List ℕ)
read_length zero bytes buf contlen = out_of_fuel
read_length (suc fuel) bytes buf contlen =
    let l = get_fd_line bytes buf int_buf in
    let cut = write l.buf 15 0 in
    let later = (header_length cut contlen >>= λ contlen'. read_length fuel l.left cut contlen') in
    if not (l.count == 0) && not (is_newline l.buf) then later else ok (contlen, l.left)

-- -1
abbrev pub absent : ℕ
absent = 2 ^ 32 - 1

-- the rounds of the loop that copies the body
abbrev pub rounds : ℕ → ℕ
rounds contlen = if ltb contlen (2 ^ 31) then contlen else 0

-- the loop that copies the body, with sgx_c; a read behind the end of the bytes leaves it alone
unfoldable pub copy_body : ℕ → (sgx_c : ℕ) → List ℕ → List Call
copy_body zero sgx_c bytes = []
copy_body (suc n) sgx_c [] = fed sgx_c ∷ copy_body n sgx_c []
copy_body (suc n) sgx_c (b ∷ bytes) = fed b ∷ copy_body n b bytes

-- the loop that copies what the script prints, until the end of the pipe is reached
unfoldable pub copy_output : List ℕ → List Call
copy_output [] = []
copy_output (b ∷ bytes) = fetched b ∷ sent (b ∷ []) ∷ copy_output bytes

-- "HTTP1.0 200 OK\r\n" and its NUL
abbrev pub status_text : List ℕ
status_text =
    b'H' ∷ b'T' ∷ b'T' ∷ b'P' ∷ b'1' ∷ b'.' ∷ b'0' ∷ b' ' ∷ b'2' ∷ b'0' ∷ b'0' ∷ b' ' ∷ b'O' ∷ b'K'
    ∷ 13 ∷ 10 ∷ 0 ∷ []

-- behind fork
abbrev pub fork_calls :
    System → ℕ → List ℕ → (type path : List ℕ) → Option (List ℕ) → Forked → Run (List Call)
fork_calls sys contlen bytes type path query failed =
    ok (shut po_read ∷ shut po_write ∷ shut pi_read ∷ shut pi_write ∷ replied 500 ∷ [])
fork_calls sys contlen bytes type path query child =
    child_environ sys.environ type contlen query >>= λ environ. ok (
      duplicated po_write 1
      ∷ duplicated pi_read 0
      ∷ shut po_read
      ∷ shut pi_write
      ∷ executed path environ
      ∷ [])
fork_calls sys contlen bytes type path query parent =
    let body = copy_body (rounds contlen) sys.stale bytes in
    ok (
      sent status_text
      ∷ shut po_write
      ∷ shut pi_read
      ∷ ((if same_word type post_word then body else [])
          ++ (copy_output sys.output ++ shut po_read ∷ shut pi_write ∷ waited ∷ [])))

-- from the first pipe on
abbrev pub pipe_calls :
    System → ℕ → List ℕ → (type path : List ℕ) → Option (List ℕ) → Run (List Call)
pipe_calls sys contlen bytes type path query =
    let forks =
      (fork_calls sys contlen bytes type path query sys.forked >>= λ calls.
      ok (made_po ∷ made_pi ∷ calls)) in
    let second =
      if sys.second_pipe
      then forks
      else ok (made_po ∷ shut po_read ∷ shut po_write ∷ replied 500 ∷ []) in
    if sys.first_pipe then second else ok (replied 500 ∷ [])

-- sgx_request_cgi
unfoldable pub request_cgi :
    System → List ℕ → (ℕ → ℕ) → (type path : List ℕ) → Option (List ℕ) → Run (List Call)
request_cgi sys bytes buf type path query =
    let posted =
      (read_length (length bytes + 1) bytes buf absent >>= λ (contlen, left).
      if contlen == absent
      then ok (replied 400 ∷ [])
      else pipe_calls sys contlen left type path query) in
    let other =
      (skip_headers (length bytes + 1) bytes buf >>= λ left.
      pipe_calls sys absent left type path query) in
    if same_word type post_word then posted else other
