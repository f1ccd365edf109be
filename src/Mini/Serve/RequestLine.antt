-- ===== src/Mini/Serve/RequestLine.antt =====
-- The request line in sgx_request_accept of src/test/sgx_mini.c, from the bytes to what it asks for.
use sginx.Base.{
  ℕ, suc, ◌+◌, ◌≤◌, ◌<◌, ◌≡◌, ◌≢◌, ◌∙◌, ap, sym, subst, refl, true, false, ◌||◌, List, [], ◌∷◌,
  ◌++◌, ◌==◌, arith, length, length-append, All, All-append, fill, cell,
}
use sginx.Base.Run.{ok}
use sginx.Base.Fill.{fill-inside}
use sginx.Mini.{finish, int_buf}
use sginx.Mini.Line.{get_fd_line_exact}
use sginx.Mini.Request.{is_space, same_word, post_word, get_word, parse_request, with_path}
use sginx.Mini.Request.Words.{Has, parse_request-with_path}
use sginx.Mini.Serve.{Files, request_accept, answer_line}

-- a line that is stored is there to be read
Has-cells :
    (buf : ℕ → ℕ) (i : ℕ) (cs : List ℕ)
    → ((k : ℕ) → k < length cs → buf (i + k) ≡ cell cs k)
    → Has buf i cs
Has-cells buf i [] same = tt
Has-cells buf i (c ∷ cs) same =
    let here : i + 0 ≡ i = omega arith in
    (
      ap buf (sym here) ∙ same 0 (omega arith),
      Has-cells buf (suc i) cs (λ k lt.
          let there : suc i + k ≡ i + suc k = omega arith in
          ap buf there ∙ same (suc k) (omega arith)),
    )

pub finish-Has :
    (buf : ℕ → ℕ) (cs left : List ℕ) → Has (finish (fill buf 0 cs) (length cs) left).buf 0 cs
finish-Has buf cs left = Has-cells _ 0 cs (λ k lt.
    let kept : (finish (fill buf 0 cs) (length cs) left).buf (0 + k) ≡ fill buf 0 cs (0 + k) =
      ground arith in
    kept ∙ fill-inside buf 0 cs k (0 + k) lt refl)

Has-parts :
    (buf : ℕ → ℕ) (i j : ℕ) (front back : List ℕ)
    → Has buf i (front ++ back)
    → j ≡ i + length front
    → Has buf i front × Has buf j back
Has-parts buf i j [] back has e =
    let here : i ≡ j = omega arith in (tt, subst (λ k. Has buf k back) here has)
Has-parts buf i j (c ∷ front) back has e =
    let (first, second) = Has-parts buf (suc i) j front back has.1 (omega arith) in
    ((has.0, first), second)

-- a request line: a method of GET or POST in letters of either case, a path without white space, and
-- anything without a carriage return behind it, short enough for the buffers
pub record IsLine (type path version : List ℕ) : Type 0 where
  pub known : (same_word type post_word || same_word type get_word) ≡ true
  pub method_plain : All (λ c. is_space c ≡ false) type
  pub method_small : length type ≤ 31
  pub path_plain : All (λ c. is_space c ≡ false) path
  pub path_some : 0 < length path
  pub path_small : length path ≤ 510
  pub version_plain : All (λ c. c ≢ 13) version
  pub line_small : length type + length path + length version < 1021

abbrev pub line_of : (type path version : List ℕ) → List ℕ
line_of type path version = type ++ b' ' ∷ (path ++ b' ' ∷ version)

not_return : (cs : List ℕ) → All (λ c. is_space c ≡ false) cs → All (λ c. c ≢ 13) cs
not_return [] all = tt
not_return (c ∷ cs) all = (ground (arith, all.0), not_return cs all.1)

pub line_of-asks :
    (type path version left : List ℕ) (buf : ℕ → ℕ)
    → IsLine type path version
    → parse_request int_buf
        (finish
          (fill buf 0 (line_of type path version))
          (length (line_of type path version))
          left).buf
      ≡ ok (with_path (same_word type post_word) type (b'.' ∷ path))
line_of-asks type path version left buf v =
    let l =
      finish (fill buf 0 (line_of type path version)) (length (line_of type path version)) left in
    let has = finish-Has buf (line_of type path version) left in
    let (types, behind) =
      Has-parts l.buf 0 (length type) type (b' ' ∷ (path ++ b' ' ∷ version)) has (omega arith) in
    let (paths, later) =
      Has-parts l.buf (suc (length type)) (suc (length type) + length path) path (b' ' ∷ version)
        behind.1 refl in
    parse_request-with_path 1022 l.buf type path types v.method_plain v.known v.method_small
      behind.0 paths v.path_plain v.path_some v.path_small (rw later.0 refl)
      (omega (arith, v.line_small))

pub line_of-some : (type path version : List ℕ) → (length (line_of type path version) == 0) ≡ false
line_of-some type path version =
    ground (arith, length-append type (b' ' ∷ (path ++ b' ' ∷ version)))

-- the line is read as it is
pub request_accept-read :
    (files : Files) (type path version more : List ℕ) (buf : ℕ → ℕ)
    → IsLine type path version
    → request_accept files (line_of type path version ++ 13 ∷ 10 ∷ more) buf
      ≡ answer_line files (
          finish (fill buf 0 (line_of type path version)) (length (line_of type path version)) more)
unfolding request_accept
request_accept-read files type path version more buf v =
    let cs = line_of type path version in
    let size = length-append type (b' ' ∷ (path ++ b' ' ∷ version)) in
    let size' = length-append path (b' ' ∷ version) in
    let small : length cs < 1023 = omega (arith, size, size', v.line_small) in
    let plain_line : All (λ c. c ≢ 13) cs =
      All-append (λ c. c ≢ 13) type (b' ' ∷ (path ++ b' ' ∷ version))
        (
          not_return type v.method_plain,
          (
            omega arith,
            All-append (λ c. c ≢ 13) path (b' ' ∷ version)
                (not_return path v.path_plain, (omega arith, v.version_plain)),
          ),
        ) in
    ap (answer_line files)
      ((get_fd_line_exact cs more 0 int_buf buf plain_line (omega arith)).0 (omega arith))
