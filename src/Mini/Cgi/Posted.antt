-- ===== src/Mini/Cgi/Posted.antt =====
-- A POST with its headers and its body, in sgx_request_cgi of src/test/sgx_mini.c.
use sginx.Base.{
  ℕ, zero, suc, ◌+◌, ◌^◌, ◌<◌, ◌≡◌, ◌∙◌, refl, ap, true, false, not, ◌&&◌, Option, List, [], ◌∷◌,
  ◌++◌, ◌==◌, ltb, arith, length, if◌then◌else◌, write, All, fill,
}
use sginx.Base.Run.{Run, ok, ◌>>=◌}
use sginx.Mini.{LineRead, int_buf, is_newline, finish}
use sginx.Mini.Line.{get_fd_line_exact}
use sginx.Mini.Request.{same_word, post_word}
use sginx.Mini.Serve.Headers.{block, headers_shorter, line-starts}
use sginx.Mini.Cgi.Header.{IsText, told, header_length-told}
use sginx.Mini.Cgi.{
  po_read, po_write, pi_read, pi_write, Call, replied, made_po, made_pi, shut, sent, fed, fetched,
  waited, parent, System, header_length, read_length, copy_body, copy_output, status_text, absent,
  request_cgi,
}

-- a round of the loop behind its line
abbrev after_line : ℕ → ℕ → LineRead → Run (ℕ × List ℕ)
after_line fuel contlen l =
    let cut = write l.buf 15 0 in
    let later = (header_length cut contlen >>= λ contlen'. read_length fuel l.left cut contlen') in
    if not (l.count == 0) && not (is_newline l.buf) then later else ok (contlen, l.left)

after_line-goes_on :
    (fuel contlen : ℕ) (l : LineRead) (contlen' : ℕ)
    → (l.count == 0) ≡ false
    → is_newline l.buf ≡ false
    → header_length (write l.buf 15 0) contlen ≡ ok contlen'
    → after_line fuel contlen l ≡ read_length fuel l.left (write l.buf 15 0) contlen'
after_line-goes_on fuel contlen l contlen' some_bytes shown given =
    rw (some_bytes, shown, given) refl

read_length-told :
    (fuel : ℕ) (hs : List (List ℕ)) (rest : List ℕ) (buf : ℕ → ℕ) (contlen : ℕ)
    → All IsText hs
    → length hs < fuel
    → read_length fuel (block hs rest) buf contlen ≡ ok (told hs contlen, rest)
unfolding read_length
read_length-told zero hs rest buf contlen all lt = absurd (omega arith)
read_length-told (suc fuel) [] rest buf contlen all lt =
    rw ((get_fd_line_exact [] rest 0 int_buf buf tt (omega arith)).0 (omega arith)) refl
read_length-told (suc fuel) (h ∷ hs) rest buf contlen all lt =
    let more = block hs rest in
    let header = all.0.header in
    let read =
      (get_fd_line_exact h more 0 int_buf buf header.plain (omega (arith, header.small))).0
        (omega (arith, header.small)) in
    let some_bytes : (length h == 0) ≡ false = ground (arith, header.some_bytes) in
    let l = finish (fill buf 0 h) (length h) more in
    let starts = line-starts buf h more header.some_bytes in
    let shown : is_newline l.buf ≡ false = ground (arith, starts, header.visible) in
    ap (after_line fuel contlen) read
    ∙ after_line-goes_on fuel contlen l _ some_bytes shown
        (header_length-told h more buf contlen all.0)
    ∙ read_length-told fuel hs rest (write l.buf 15 0) _ all.1 (omega arith)

-- the bytes of the body, fed to the script
abbrev pub all_fed : List ℕ → List Call
all_fed [] = []
all_fed (b ∷ bytes) = fed b ∷ all_fed bytes

copy_body-fed :
    (body : List ℕ) (sgx_c : ℕ) (rest : List ℕ)
    → copy_body (length body) sgx_c (body ++ rest) ≡ all_fed body
unfolding copy_body
copy_body-fed [] sgx_c rest = refl
copy_body-fed (b ∷ body) sgx_c rest = ap (λ calls. fed b ∷ calls) (copy_body-fed body b rest)

-- what the script prints, each byte fetched and then sent
abbrev pub all_copied : List ℕ → List Call
all_copied [] = []
all_copied (b ∷ bytes) = fetched b ∷ sent (b ∷ []) ∷ all_copied bytes

copy_output-copied : (bytes : List ℕ) → copy_output bytes ≡ all_copied bytes
unfolding copy_output
copy_output-copied [] = refl
copy_output-copied (b ∷ bytes) =
    ap (λ calls. fetched b ∷ sent (b ∷ []) ∷ calls) (copy_output-copied bytes)

-- A POST comes with header lines that fit the buffer, hold no NUL and do not begin with LF, none of
-- them "Content-Length:" alone; then come an empty line, a body, and anything more. If no header line
-- gives a length, or the last gives -1, the answer is status 400 and nothing else. If the last length
-- is that of the body, both pipes are made and fork returns as the parent, then the process sends the
-- status line, closes the ends of the child, feeds exactly the body to the script, sends each
-- byte that the script prints, closes its ends and waits.
pub request_cgi-feeds :
    (sys : System) (hs : List (List ℕ)) (body rest : List ℕ) (buf : ℕ → ℕ) (type path : List ℕ)
    → (query : Option (List ℕ)) → same_word type post_word ≡ true
    → All IsText hs
    → (told hs absent ≡ absent
        → request_cgi sys (block hs (body ++ rest)) buf type path query ≡ ok (replied 400 ∷ []))
      × (told hs absent ≡ length body
          → length body < 2 ^ 31
          → sys.first_pipe ≡ true
          → sys.second_pipe ≡ true
          → sys.forked ≡ parent
          → request_cgi sys (block hs (body ++ rest)) buf type path query
            ≡ ok (
                made_po
                ∷ made_pi
                ∷ sent status_text
                ∷ shut po_write
                ∷ shut pi_read
                ∷ (all_fed body
                    ++ (all_copied sys.output ++ shut po_read ∷ shut pi_write ∷ waited ∷ []))))
unfolding request_cgi
request_cgi-feeds sys hs body rest buf type path query post all =
    let bytes = block hs (body ++ rest) in
    let read =
      read_length-told (length bytes + 1) hs (body ++ rest) buf absent all
        (omega (arith, headers_shorter hs (body ++ rest))) in
    (
      (λ none_told. rw (post, read, none_told) refl),
      (λ e small one two forked.
          let there : (length body == absent) ≡ false = ground (arith, small) in
          let fits : ltb (length body) (2 ^ 31) ≡ true = ground (arith, small) in
          rw
            (
              post,
              read,
              e,
              there,
              one,
              two,
              forked,
              post,
              fits,
              copy_body-fed body sys.stale rest,
              copy_output-copied sys.output,
            )
            refl),
    )
