-- ===== src/Mini/Serve/Get.antt =====
-- A request for a file, from its bytes to the answer, in src/test/sgx_mini.c.
use sginx.Base.{
  ℕ, ◌+◌, ◌≡◌, ◌≢◌, ◌∙◌, ap, refl, true, false, some, List, [], ◌∷◌, ◌++◌, ◌==◌, arith, length, All,
  fill,
}
use sginx.Base.Run.{ok, Returns, returns, Returns-bind, ◌>>=◌}
use sginx.Conf.{string_of}
use sginx.Conf.Text.{string_of_whole}
use sginx.Mini.{LineRead, finish, int_buf}
use sginx.Mini.Request.{same_word, get_word, parse_request, asks}
use sginx.Mini.Request.Parts.{get_not_post, with_path-get}
use sginx.Mini.Serve.RequestLine.{IsLine, line_of, line_of-asks, line_of-some, request_accept-read}
use sginx.Mini.Serve.{replied, closed, Files, send_file, request_accept, answer_line}
use sginx.Mini.Serve.Headers.{
  IsHeader, block, headers_shorter, skip_headers-block, all_sent, sends, send_lines-whole,
}

-- a request line that asks for a file: the method is GET in letters of either case, and the path
-- holds no '?'
pub record IsGet (type path version : List ℕ) : Type 0 where
  pub line : IsLine type path version
  pub method : same_word type get_word ≡ true
  pub path_visible : All (λ c. (c ≢ 0) × (c ≢ b'?')) path

visible : (cs : List ℕ) → All (λ c. (c ≢ 0) × (c ≢ b'?')) cs → All (λ c. c ≢ 0) cs
visible [] all = tt
visible (c ∷ cs) all = (all.0.0, visible cs all.1)

send_file-whole :
    (files : Files) (hs : List (List ℕ)) (rest : List ℕ) (buf : ℕ → ℕ) (name file : List ℕ)
    → All IsHeader hs
    → files.contents name ≡ some file
    → All (λ c. c ≢ 0) file
    → Returns
        (λ effects.
          (pieces : List (List ℕ)) × (effects ≡ replied 200 ∷ sends pieces)
          × (all_sent pieces ≡ file))
        (send_file files (block hs rest) buf name)
unfolding send_file
send_file-whole files hs rest buf name file headers found all =
    let skipped =
      skip_headers-block (length (block hs rest) + 1) hs rest buf headers
        (omega (arith, headers_shorter hs rest)) in
    rw (skipped, found)
      (Returns-bind (send_lines-whole (length file + 1) file all (omega arith))
        (λ effects (pieces, e, joined).
          returns (pieces, ap (λ later. replied 200 ∷ later) e, joined)))

answer_line-sends :
    (files : Files) (l : LineRead) (type name : List ℕ)
    → (l.count == 0) ≡ false
    → parse_request int_buf l.buf ≡ ok (asks type name (some []) true)
    → string_of name ≡ name
    → files.executable name ≡ some false
    → answer_line files l
      ≡ (send_file files l.left files.fresh_buf name >>= λ effects. ok (effects ++ closed ∷ []))
answer_line-sends files l type name some_bytes parsed whole plain =
    rw (some_bytes, parsed, whole, plain) refl

-- A client sends a request line with the method GET and a path without '?', header lines, an empty
-- line, and anything more; every line ends in CR LF and fits its buffer, and no header line begins
-- with LF. The path, behind a '.', is that of a file which may not be executed, can be opened, and
-- holds no NUL. Then sgx_request_accept replies 200, sends the contents of the file in pieces, and
-- closes the connection.
pub request_accept-sends :
    (files : Files) (type path version : List ℕ) (hs : List (List ℕ)) (rest : List ℕ) (buf : ℕ → ℕ)
    → (file : List ℕ) → IsGet type path version
    → All IsHeader hs
    → files.executable (b'.' ∷ path) ≡ some false
    → files.contents (b'.' ∷ path) ≡ some file
    → All (λ c. c ≢ 0) file
    → Returns
        (λ effects.
          (pieces : List (List ℕ)) × (effects ≡ replied 200 ∷ (sends pieces ++ closed ∷ []))
          × (all_sent pieces ≡ file))
        (request_accept files (line_of type path version ++ 13 ∷ 10 ∷ block hs rest) buf)
request_accept-sends files type path version hs rest buf file v headers plain found all =
    let cs = line_of type path version in
    let l = finish (fill buf 0 cs) (length cs) (block hs rest) in
    let name = b'.' ∷ path in
    let whole = string_of_whole name (omega arith, visible path v.path_visible) in
    let asked =
      line_of-asks type path version (block hs rest) buf v.line
      ∙ ap ok (with_path-get type path (get_not_post type v.method) v.path_visible) in
    let sending =
      answer_line-sends files l type name (line_of-some type path version) asked whole plain in
    rw (request_accept-read files type path version (block hs rest) buf v.line, sending)
      (Returns-bind (send_file-whole files hs rest files.fresh_buf name file headers found all)
        (λ effects (pieces, e, joined). returns (pieces, ap (λ es. es ++ closed ∷ []) e, joined)))
