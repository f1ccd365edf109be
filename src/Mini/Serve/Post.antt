-- ===== src/Mini/Serve/Post.antt =====
-- A POST to a script, from its bytes to the end of the connection, in src/test/sgx_mini.c.
use sginx.Base.{
  ℕ, ◌^◌, ◌<◌, ◌≡◌, ◌≢◌, ◌∙◌, ap, refl, Bool, true, false, none, some, List, [], ◌∷◌, ◌++◌, ◌==◌,
  arith, length, All, fill,
}
use sginx.Base.Run.{ok}
use sginx.Conf.{string_of}
use sginx.Conf.Text.{string_of_whole}
use sginx.Mini.{LineRead, finish, int_buf}
use sginx.Mini.Request.{same_word, post_word, parse_request, asks, with_path}
use sginx.Mini.Cgi.{
  Call, po_read, po_write, pi_read, pi_write, made_po, made_pi, shut, sent, waited, parent,
  status_text, absent, request_cgi,
}
use sginx.Mini.Cgi.Header.{IsText, told}
use sginx.Mini.Cgi.Posted.{all_fed, all_copied, request_cgi-feeds}
use sginx.Mini.Serve.{ran, closed, Files, request_accept, answer_line}
use sginx.Mini.Serve.Headers.{block}
use sginx.Mini.Serve.RequestLine.{IsLine, line_of, line_of-asks, line_of-some, request_accept-read}

answer_line-runs :
    (files : Files) (l : LineRead) (type name : List ℕ) (x : Bool) (calls : List Call)
    → (l.count == 0) ≡ false
    → parse_request int_buf l.buf ≡ ok (asks type name none false)
    → string_of name ≡ name
    → files.executable name ≡ some x
    → request_cgi files.sys l.left files.fresh_buf type name none ≡ ok calls
    → answer_line files l ≡ ok (ran calls ∷ closed ∷ [])
answer_line-runs files l type name x calls some_bytes parsed whole there runs =
    rw (some_bytes, parsed, whole, there, runs) refl

-- A client sends a request line with the method POST and a path without a NUL, header lines that fit
-- the buffer, hold no NUL, do not begin with LF and are not "Content-Length:" alone, an empty line, a
-- body of the length that the last Content-Length gives, and anything more. The path, behind a '.', is
-- that of a file, both pipes are made, and fork returns as the parent. Then sgx_request_accept sends
-- the status line, feeds exactly the body to the script, sends each byte that the script prints, closes all
-- ends of the pipes, waits, and closes the connection.
pub request_accept-runs :
    (files : Files) (type path version : List ℕ) (hs : List (List ℕ)) (body rest : List ℕ)
    → (buf : ℕ → ℕ) (x : Bool) → IsLine type path version
    → same_word type post_word ≡ true
    → All (λ c. c ≢ 0) path
    → All IsText hs
    → told hs absent ≡ length body
    → length body < 2 ^ 31
    → files.executable (b'.' ∷ path) ≡ some x
    → files.sys.first_pipe ≡ true
    → files.sys.second_pipe ≡ true
    → files.sys.forked ≡ parent
    → request_accept files (line_of type path version ++ 13 ∷ 10 ∷ block hs (body ++ rest)) buf
      ≡ ok (
          ran (
            made_po
            ∷ made_pi
            ∷ sent status_text
            ∷ shut po_write
            ∷ shut pi_read
            ∷ (all_fed body
                ++ (all_copied files.sys.output ++ shut po_read ∷ shut pi_write ∷ waited ∷ [])))
          ∷ closed
          ∷ [])
request_accept-runs files type path version hs body rest buf x v post no_nul all e small there one
      two forked =
    let more = block hs (body ++ rest) in
    let cs = line_of type path version in
    let l = finish (fill buf 0 cs) (length cs) more in
    let name = b'.' ∷ path in
    let parsed =
      line_of-asks type path version more buf v
      ∙ ap (λ b. ok (with_path b type (b'.' ∷ path))) post in
    let runs =
      (request_cgi-feeds files.sys hs body rest files.fresh_buf type name none post all).1 e small
        one two forked in
    request_accept-read files type path version more buf v
    ∙ answer_line-runs files l type name x _ (line_of-some type path version) parsed
        (string_of_whole name (omega arith, no_nul)) there runs
