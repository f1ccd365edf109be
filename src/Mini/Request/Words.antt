-- ===== src/Mini/Request/Words.antt =====
-- How the loops of sgx_request_accept read the words of a request line, in src/test/sgx_mini.c.
use sginx.Base.{
  ℕ, zero, suc, ◌+◌, ◌<◌, ◌≤◌, ltb, ◌≡◌, refl, ap, ◌∙◌, Bool, true, false, not, ◌&&◌, ◌||◌, List,
  [], ◌∷◌, arith, length, All, if◌then◌else◌,
}
use sginx.Base.Run.{ok, ◌>>=◌}
use sginx.Mini.{int_buf}
use sginx.Mini.Request.{
  is_space, copy, skip_spaces, same_word, post_word, get_word, with_path, path_read, read_path,
  method_read, parse_request,
}

-- the memory holds the characters from an index on
abbrev pub Has : (ℕ → ℕ) → ℕ → List ℕ → Type 0
Has buf i [] = Unit
Has buf i (c ∷ cs) = (buf i ≡ c) × Has buf (suc i) cs

copy-word :
    (room : ℕ) (buf : ℕ → ℕ) (i j : ℕ) (cs : List ℕ)
    → Has buf i cs
    → All (λ c. is_space c ≡ false) cs
    → is_space (buf j) ≡ true
    → length cs ≤ room
    → j ≡ i + length cs
    → j < int_buf
    → copy room buf i ≡ ok (cs, j)
unfolding copy
copy-word zero buf i j [] has plain space le e lt =
    let here : i ≡ j = omega arith in ap (λ k. ok ([], k)) here
copy-word (suc room) buf i j [] has plain space le e lt =
    let here : i ≡ j = omega arith in
    let stored : ltb j int_buf ≡ true = ground arith in rw (here, stored, space) refl
copy-word zero buf i j (c ∷ cs) has plain space le e lt = absurd (omega arith)
copy-word (suc room) buf i j (c ∷ cs) has plain space le e lt =
    let stored : ltb i int_buf ≡ true = ground arith in
    rw
      (
        stored,
        has.0,
        plain.0,
        copy-word room buf (suc i) j cs has.1 plain.1 space (omega arith) (omega arith) lt,
      )
      refl

-- one space is skipped
skip-one :
    (fuel : ℕ) (buf : ℕ → ℕ) (i : ℕ)
    → buf i ≡ b' '
    → is_space (buf (suc i)) ≡ false
    → suc i < int_buf
    → skip_spaces (suc (suc fuel)) buf i ≡ ok (suc i)
unfolding skip_spaces
skip-one fuel buf i here there lt =
    let stored : ltb i int_buf ≡ true = ground arith in
    let stored' : ltb (suc i) int_buf ≡ true = ground arith in
    rw (here, there, stored, stored') (ground arith)

starts-plain :
    (buf : ℕ → ℕ) (i : ℕ) (cs : List ℕ)
    → Has buf i cs
    → All (λ c. is_space c ≡ false) cs
    → 0 < length cs
    → is_space (buf i) ≡ false
starts-plain buf i [] has plain more = absurd (omega arith)
starts-plain buf i (c ∷ cs) has plain more = rw has.0 plain.0

admitted {ℓ} :
    {A : Type ℓ} (post get : Bool) (x y : A)
    → post || get ≡ true
    → (if not post && not get then x else y) ≡ y
admitted true get x y known = refl
admitted false true x y known = refl
admitted false false x y known = absurd (ground arith)

-- a line with a method, a space, and a path without white space that fits, with white space behind it
pub parse_request-with_path :
    (fuel : ℕ) (buf : ℕ → ℕ) (type path : List ℕ)
    → Has buf 0 type
    → All (λ c. is_space c ≡ false) type
    → (same_word type post_word || same_word type get_word) ≡ true
    → length type ≤ 31
    → buf (length type) ≡ b' '
    → Has buf (suc (length type)) path
    → All (λ c. is_space c ≡ false) path
    → 0 < length path
    → length path ≤ 510
    → is_space (buf (suc (length type) + length path)) ≡ true
    → suc (length type) + length path < int_buf
    → parse_request (suc (suc fuel)) buf
      ≡ ok (with_path (same_word type post_word) type (b'.' ∷ path))
unfolding parse_request
parse_request-with_path fuel buf type path has plain known small blank has' plain' some' small'
      space lt =
    let blank' : is_space (buf (length type)) ≡ true = rw blank refl in
    let first =
      copy-word 31 buf 0 (length type) type has plain blank' small (omega arith) (omega arith) in
    let second =
      copy-word 510 buf (suc (length type)) (suc (length type) + length path) path has' plain' space
        small' refl lt in
    let skipped =
      skip-one fuel buf (length type) blank
        (starts-plain buf (suc (length type)) path has' plain' some') (omega arith) in
    let is_post = same_word type post_word in
    ap (λ read. read >>= method_read (suc (suc fuel)) buf) first
    ∙ admitted is_post (same_word type get_word) _ _ known
    ∙ ap (λ read. read >>= read_path buf is_post type) skipped
    ∙ ap (λ read. read >>= path_read is_post type) second
