-- ===== src/Mini/Serve.antt =====
-- sgx_request_accept and sgx_send_file of src/test/sgx_mini.c, as what they do to the connection.
-- What the connection delivers, and what stat and fopen answer, are arguments. The closing of a
-- file that was opened is left out.
pub mod Headers
pub mod RequestLine
pub mod Get
pub mod Post
mod Tests
use sginx.Base.{
  ℕ, zero, suc, ◌+◌, ◌-◌, Bool, true, false, not, ◌&&◌, Option, none, some, List, [], ◌∷◌, ◌++◌,
  ◌==◌, if◌then◌else◌, length,
}
use sginx.Base.Run.{Run, ok, out_of_fuel, ◌>>=◌}
use sginx.Conf.{fgets_line, string_of}
use sginx.Mini.{LineRead, get_fd_line, int_buf, skip_headers}
use sginx.Mini.Cgi.{Call, System, request_cgi}
use sginx.Mini.Request.{Asked, rejected, asks, parse_request}

-- the rsp functions with their status, write, the calls of sgx_request_cgi, close of the connection,
-- and fclose of NULL
pub data Effect : Type 0 where
  replied : ℕ → Effect
  sent : List ℕ → Effect
  ran : List Call → Effect
  closed closed_null : Effect

-- what stat answers for a path, that is whether somebody may execute it, what fopen opens, what
-- stands in the sgx_buf that sgx_send_file or sgx_request_cgi has for itself, and what the calls for a
-- script answer
pub record Files : Type 0 where
  pub executable : List ℕ → Option Bool
  pub contents : List ℕ → Option (List ℕ)
  pub fresh_buf : ℕ → ℕ
  pub sys : System

-- the loop of sgx_send_file over the file
unfoldable pub send_lines : ℕ → List ℕ → Run (List Effect)
send_lines zero file = out_of_fuel
send_lines (suc fuel) [] = ok []
send_lines (suc fuel) (c ∷ file) =
    let (line, rest) = fgets_line (int_buf - 1) (c ∷ file) in
    send_lines fuel rest >>= λ later. ok (sent (string_of line) ∷ later)

-- sgx_send_file behind the headers
abbrev pub send_contents : Option (List ℕ) → Run (List Effect)
send_contents none = ok (replied 400 ∷ closed_null ∷ [])
send_contents (some file) = send_lines (length file + 1) file >>= λ lines. ok (replied 200 ∷ lines)

-- sgx_send_file
unfoldable pub send_file : Files → List ℕ → (ℕ → ℕ) → List ℕ → Run (List Effect)
send_file files bytes buf path =
    skip_headers (length bytes + 1) bytes buf >>= λ left. send_contents (files.contents path)

-- the end of sgx_request_accept, with what stat has answered
abbrev pub serve :
    Files
    → List ℕ
    → (ℕ → ℕ)
    → (type path : List ℕ) → Option (List ℕ)
    → Bool
    → Option Bool
    → Run (List Effect)
serve files bytes buf type path query iscgi none =
    skip_headers (length bytes + 1) bytes buf >>= λ left. ok (replied 404 ∷ closed ∷ [])
serve files bytes buf type path query iscgi (some executable) =
    if iscgi && not executable
    then (send_file files bytes files.fresh_buf path >>= λ effects. ok (effects ++ closed ∷ []))
    else (request_cgi files.sys bytes files.fresh_buf type path query >>= λ calls.
        ok (ran calls ∷ closed ∷ []))

-- sgx_request_accept behind the request line
abbrev pub dispatch_asked : Files → List ℕ → (ℕ → ℕ) → Asked → Run (List Effect)
dispatch_asked files bytes buf rejected = ok (replied 501 ∷ closed ∷ [])
dispatch_asked files bytes buf (asks type path query iscgi) =
    let name = string_of path in serve files bytes buf type name query iscgi (files.executable name)

-- sgx_request_accept once it has read a line
abbrev pub answer_line : Files → LineRead → Run (List Effect)
answer_line files l =
    let served =
      (parse_request int_buf l.buf >>= λ asked. dispatch_asked files l.left l.buf asked) in
    if l.count == 0 then ok (replied 501 ∷ closed ∷ []) else served

-- sgx_request_accept
unfoldable pub request_accept : Files → List ℕ → (ℕ → ℕ) → Run (List Effect)
request_accept files bytes buf = answer_line files (get_fd_line bytes buf int_buf)
