-- ===== src/Mini/Serve/Headers.antt =====
-- The loops of src/test/sgx_mini.c over header lines and over the lines of a file.
use sginx.Base.{
  All-parts, ℕ, zero, suc, ◌<◌, ◌≡◌, ◌≢◌, ◌∙◌, ap, sym, subst, refl, false, not, ◌&&◌, List, [],
  ◌∷◌, ◌++◌, ◌==◌, arith, length, length-append, All, fill, cell, if◌then◌else◌,
}
use sginx.Base.Run.{Run, ok, Returns, returns, Returns-bind}
use sginx.Base.Fill.{fill-inside}
use sginx.Conf.{fgets_line, string_of}
use sginx.Conf.Text.{string_of_whole, fgets_line-parts}
use sginx.Mini.{LineRead, finish, skip_headers, is_newline, int_buf}
use sginx.Mini.Line.{get_fd_line_exact}
use sginx.Mini.Serve.{Effect, sent, send_lines}

-- a header line that fits the buffer
pub record IsHeader (h : List ℕ) : Type 0 where
  pub plain : All (λ c. c ≢ 13) h
  pub some_bytes : 0 < length h
  pub small : length h < 1023
  pub visible : cell h 0 ≢ 10

-- header lines with their ends, an empty line, and what follows
abbrev pub block : List (List ℕ) → List ℕ → List ℕ
block [] rest = 13 ∷ 10 ∷ rest
block (h ∷ hs) rest = h ++ 13 ∷ 10 ∷ block hs rest

pub headers_shorter : (hs : List (List ℕ)) (rest : List ℕ) → length hs < length (block hs rest)
headers_shorter [] rest = omega arith
headers_shorter (h ∷ hs) rest =
    omega (arith, headers_shorter hs rest, length-append h (13 ∷ 10 ∷ block hs rest))

pub line-starts :
    (buf : ℕ → ℕ) (h left : List ℕ)
    → 0 < length h
    → (finish (fill buf 0 h) (length h) left).buf 0 ≡ cell h 0
line-starts buf h left pos =
    let kept : (finish (fill buf 0 h) (length h) left).buf 0 ≡ fill buf 0 h 0 = ground arith in
    kept ∙ fill-inside buf 0 h 0 0 pos refl

-- a round of the loop behind its line
abbrev after_line : ℕ → LineRead → Run (List ℕ)
after_line fuel l =
    if not (l.count == 0) && not (is_newline l.buf)
    then skip_headers fuel l.left l.buf
    else ok l.left

after_line-goes_on :
    (fuel : ℕ) (l : LineRead)
    → (l.count == 0) ≡ false
    → is_newline l.buf ≡ false
    → after_line fuel l ≡ skip_headers fuel l.left l.buf
after_line-goes_on fuel l some_bytes shown = rw (some_bytes, shown) refl

pub skip_headers-block :
    (fuel : ℕ) (hs : List (List ℕ)) (rest : List ℕ) (buf : ℕ → ℕ)
    → All IsHeader hs
    → length hs < fuel
    → skip_headers fuel (block hs rest) buf ≡ ok rest
unfolding skip_headers
skip_headers-block zero hs rest buf all lt = absurd (omega arith)
skip_headers-block (suc fuel) [] rest buf all lt =
    rw ((get_fd_line_exact [] rest 0 int_buf buf tt (omega arith)).0 (omega arith)) refl
skip_headers-block (suc fuel) (h ∷ hs) rest buf all lt =
    let more = block hs rest in
    let read =
      (get_fd_line_exact h more 0 int_buf buf all.0.plain (omega (arith, all.0.small))).0
        (omega (arith, all.0.small)) in
    let some_bytes : (length h == 0) ≡ false = ground (arith, all.0.some_bytes) in
    let l = finish (fill buf 0 h) (length h) more in
    let starts = line-starts buf h more all.0.some_bytes in
    let shown : is_newline l.buf ≡ false = ground (arith, starts, all.0.visible) in
    ap (after_line fuel) read
    ∙ after_line-goes_on fuel l some_bytes shown
    ∙ skip_headers-block fuel hs rest l.buf all.1 (omega arith)

-- the pieces of a file that are sent, put together
abbrev pub all_sent : List (List ℕ) → List ℕ
all_sent [] = []
all_sent (piece ∷ pieces) = piece ++ all_sent pieces

abbrev pub sends : List (List ℕ) → List Effect
sends [] = []
sends (piece ∷ pieces) = sent piece ∷ sends pieces

pub send_lines-whole :
    (fuel : ℕ) (file : List ℕ)
    → All (λ c. c ≢ 0) file
    → length file < fuel
    → Returns
        (λ effects. (pieces : List (List ℕ)) × (effects ≡ sends pieces) × (all_sent pieces ≡ file))
        (send_lines fuel file)
unfolding send_lines
send_lines-whole zero file all lt = absurd (omega arith)
send_lines-whole (suc fuel) [] all lt = returns ([], refl, refl)
send_lines-whole (suc fuel) (c ∷ file) all lt =
    let (whole, shorter) = fgets_line-parts 1023 (c ∷ file) in
    let got = fgets_line 1023 (c ∷ file) in
    let (front, back) =
      All-parts (λ b. b ≢ 0) got.0 got.1 (subst (All (λ b. b ≢ 0)) (sym whole) all) in
    Returns-bind
      (send_lines-whole fuel got.1 back (omega (arith, shorter (omega arith) (omega arith))))
      (λ effects (pieces, e, joined). returns (
        string_of got.0 ∷ pieces,
        ap (λ later. sent (string_of got.0) ∷ later) e,
        rw (string_of_whole got.0 front, joined) whole,
      ))
