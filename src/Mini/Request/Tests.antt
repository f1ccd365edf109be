-- ===== src/Mini/Request/Tests.antt =====
-- The request line "GET /a?b HTTP", and the theorem at it.
use sginx.Base.{ℕ, ◌≡◌, ◌≢◌, ◌++◌, All, refl, false, true, none, some, List, [], ◌∷◌, cell, arith}
use sginx.Base.Run.{ok}
use sginx.Mini.Request.{asks, parse_request, cut, copy, skip_spaces}
use sginx.Mini.Request.Parts.{Spells, parse_request_exact}

abbrev line : ℕ → ℕ
line =
    cell (
      b'G' ∷ b'e' ∷ b't' ∷ b' ' ∷ b'/' ∷ b'a' ∷ b'?' ∷ b'b' ∷ b' ' ∷ b'H' ∷ b'T' ∷ b'T' ∷ b'P' ∷ [])

abbrev type_word : List ℕ
type_word = b'G' ∷ b'e' ∷ b't' ∷ []

abbrev path_word : List ℕ
path_word = b'/' ∷ b'a' ∷ b'?' ∷ b'b' ∷ []

query_test :
    parse_request 9 line ≡ ok (asks type_word (b'.' ∷ b'/' ∷ b'a' ∷ []) (some (b'b' ∷ [])) false)
unfolding parse_request cut copy skip_spaces
query_test = refl

parse_request_exact_example :
    (Spells type_word (b'P' ∷ b'O' ∷ b'S' ∷ b'T' ∷ [])
      → parse_request 9 line ≡ ok (asks type_word (b'.' ∷ path_word) none false))
    × (Spells type_word (b'G' ∷ b'E' ∷ b'T' ∷ [])
        → All (λ c. (c ≢ 0) × (c ≢ b'?')) path_word
        → parse_request 9 line ≡ ok (asks type_word (b'.' ∷ path_word) (some []) true))
    × ((front query : List ℕ)
        → Spells type_word (b'G' ∷ b'E' ∷ b'T' ∷ [])
        → path_word ≡ front ++ b'?' ∷ query
        → All (λ c. (c ≢ 0) × (c ≢ b'?')) front
        → parse_request 9 line ≡ ok (asks type_word (b'.' ∷ front) (some query) false))
parse_request_exact_example =
    parse_request_exact 7 line type_word path_word (refl, (refl, (refl, tt))) refl
      (refl, (refl, (refl, (refl, tt)))) (refl, (refl, (refl, (refl, tt)))) (omega arith)
      (omega arith) refl (omega arith)
