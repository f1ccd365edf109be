-- ===== src/Mini/Request/Parts.antt =====
-- What sgx_request_accept of src/test/sgx_mini.c makes of a well-formed request line.
use sginx.Base.{
  ℕ, suc, ◌+◌, ◌<◌, ◌≤◌, ◌≡◌, ◌≢◌, ◌∙◌, ◌⊎◌, inl, inr, ap, refl, Bool, true, false, ◌&&◌, ◌||◌,
  none, some, List, [], ◌∷◌, ◌++◌, ◌==◌, arith, length, All,
}
use sginx.Base.Run.{ok}
use sginx.Http.Handle.{lower}
use sginx.Mini.{int_buf}
use sginx.Mini.Request.{
  is_space, same_word, post_word, get_word, asks, cut, with_path, parse_request,
}
use sginx.Mini.Request.Words.{Has, parse_request-with_path}

-- a word is written in letters of either case
abbrev pub Spells : (written capitals : List ℕ) → Type 0
Spells [] [] = Unit
Spells [] (d ∷ ds) = ⊥
Spells (c ∷ cs) [] = ⊥
Spells (c ∷ cs) (d ∷ ds) = ((c ≡ d) ⊎ (c ≡ d + 32)) × Spells cs ds

lower-either :
    (c d : ℕ) → (c ≡ d) ⊎ (c ≡ d + 32) → b'A' ≤ d → d ≤ b'Z' → (lower c == lower d) ≡ true
lower-either c d (inl e) low high = ground (arith, e)
lower-either c d (inr e) low high = ground (arith, e)

plain-either : (c d : ℕ) → (c ≡ d) ⊎ (c ≡ d + 32) → b'A' ≤ d → d ≤ b'Z' → is_space c ≡ false
plain-either c d (inl e) low high = ground (arith, e)
plain-either c d (inr e) low high = ground (arith, e)

-- a word that is so written is the same for strcasecmp, holds no white space, and has the same length
same_word-Spells :
    (cs ds : List ℕ)
    → Spells cs ds
    → All (λ d. (b'A' ≤ d) × (d ≤ b'Z')) ds
    → (same_word cs ds ≡ true) × All (λ c. is_space c ≡ false) cs × (length cs ≡ length ds)
same_word-Spells [] [] spells capitals = (refl, tt, refl)
same_word-Spells [] (d ∷ ds) spells capitals = elim spells [ ]
same_word-Spells (c ∷ cs) [] spells capitals = elim spells [ ]
same_word-Spells (c ∷ cs) (d ∷ ds) spells capitals =
    let (same, plain, size) = same_word-Spells cs ds spells.1 capitals.1 in
    let here = lower-either c d spells.0 capitals.0.0 capitals.0.1 in
    (
      rw (here, same) refl,
      (plain-either c d spells.0 capitals.0.0 capitals.0.1, plain),
      ap (λ n. suc n) size,
    )

not_both : (x : ℕ) (p q : Bool) → (x == b'g') && p ≡ true → (x == b'p') && q ≡ false
not_both x p q e = ground (arith, e)

pub get_not_post :
    (type : List ℕ) → same_word type get_word ≡ true → same_word type post_word ≡ false
get_not_post [] e = absurd (ground (arith, e))
get_not_post (c ∷ cs) e =
    not_both (lower c) (same_word cs (b'E' ∷ b'T' ∷ [])) (same_word cs (b'O' ∷ b'S' ∷ b'T' ∷ [])) e

cut-plain : (cs : List ℕ) → All (λ c. (c ≢ 0) × (c ≢ b'?')) cs → cut cs ≡ (cs, none)
unfolding cut
cut-plain [] all = refl
cut-plain (c ∷ cs) all =
    let visible : (c == 0) ≡ false = ground (arith, all.0.0) in
    let other : (c == b'?') ≡ false = ground (arith, all.0.1) in
    rw (visible, other, cut-plain cs all.1) refl

cut-query :
    (front query : List ℕ)
    → All (λ c. (c ≢ 0) × (c ≢ b'?')) front
    → cut (front ++ b'?' ∷ query) ≡ (front, some query)
unfolding cut
cut-query [] query all = refl
cut-query (c ∷ front) query all =
    let visible : (c == 0) ≡ false = ground (arith, all.0.0) in
    let other : (c == b'?') ≡ false = ground (arith, all.0.1) in
    rw (visible, other, cut-query front query all.1) refl

pub with_path-get :
    (type path : List ℕ)
    → same_word type post_word ≡ false
    → All (λ c. (c ≢ 0) × (c ≢ b'?')) path
    → with_path (same_word type post_word) type (b'.' ∷ path)
      ≡ asks type (b'.' ∷ path) (some []) true
with_path-get type path other visible =
    rw (other, cut-plain (b'.' ∷ path) ((omega arith, omega arith), visible)) refl

with_path-query :
    (type front query : List ℕ)
    → same_word type post_word ≡ false
    → All (λ c. (c ≢ 0) × (c ≢ b'?')) front
    → with_path (same_word type post_word) type (b'.' ∷ (front ++ b'?' ∷ query))
      ≡ asks type (b'.' ∷ front) (some query) false
with_path-query type front query other visible =
    rw (other, cut-query (b'.' ∷ front) query ((omega arith, omega arith), visible)) refl

-- The buffer holds a word, a space, and a path that is not empty, has no white space and at most 510
-- bytes, with white space behind it in the buffer. If the word is "POST" in letters of either case, the
-- request is for the whole path behind a '.', its query has no value, and it is for a script. If it is
-- "GET", and the path holds no NUL and no '?', it is for the path behind a '.' with an empty query,
-- and for a script only if the file may be executed. If it is "GET", and the path is a front without
-- NUL and '?', a '?' and a query, it is for the front behind a '.', with that query, and for a script.
pub parse_request_exact :
    (fuel : ℕ) (buf : ℕ → ℕ) (type path : List ℕ)
    → Has buf 0 type
    → buf (length type) ≡ b' '
    → Has buf (suc (length type)) path
    → All (λ c. is_space c ≡ false) path
    → 0 < length path
    → length path ≤ 510
    → is_space (buf (suc (length type) + length path)) ≡ true
    → suc (length type) + length path < int_buf
    → (Spells type (b'P' ∷ b'O' ∷ b'S' ∷ b'T' ∷ [])
        → parse_request (suc (suc fuel)) buf ≡ ok (asks type (b'.' ∷ path) none false))
      × (Spells type (b'G' ∷ b'E' ∷ b'T' ∷ [])
          → All (λ c. (c ≢ 0) × (c ≢ b'?')) path
          → parse_request (suc (suc fuel)) buf ≡ ok (asks type (b'.' ∷ path) (some []) true))
      × ((front query : List ℕ)
          → Spells type (b'G' ∷ b'E' ∷ b'T' ∷ [])
          → path ≡ front ++ b'?' ∷ query
          → All (λ c. (c ≢ 0) × (c ≢ b'?')) front
          → parse_request (suc (suc fuel)) buf ≡ ok (asks type (b'.' ∷ front) (some query) false))
parse_request_exact fuel buf type path has blank has' plain' some' small' space lt =
    let read =
      λ (plain : All (λ c. is_space c ≡ false) type)
          (known : (same_word type post_word || same_word type get_word) ≡ true)
          (small : length type ≤ 31).
        parse_request-with_path fuel buf type path has plain known small blank has' plain' some'
          small' space lt in
    let is_get =
      λ (spells : Spells type get_word). same_word-Spells type get_word spells (omega arith) in
    (
      (λ spells.
          let (same, plain, size) = same_word-Spells type post_word spells (omega arith) in
          read plain (rw same refl) (omega (arith, size))
          ∙ ap (λ b. ok (with_path b type (b'.' ∷ path))) same),
      (λ spells visible.
          let (same, plain, size) = is_get spells in
          let other = get_not_post type same in
          read plain (rw (other, same) refl) (omega (arith, size))
          ∙ ap (λ o. ok o) (with_path-get type path other visible)),
      (λ front query spells e visible.
          let (same, plain, size) = is_get spells in
          let other = get_not_post type same in
          read plain (rw (other, same) refl) (omega (arith, size))
          ∙ ap (λ p. ok (with_path (same_word type post_word) type (b'.' ∷ p))) e
          ∙ ap (λ o. ok o) (with_path-query type front query other visible)),
    )
