-- ===== src/Mini/Tests.antt =====
-- Lines of a few bytes, and the theorem at one.
use sginx.Base.{fill, ℕ, ◌<◌, ◌≡◌, ◌≢◌, refl, List, [], ◌∷◌, ◌++◌, arith, write, All}
use sginx.Mini.{finish, get_fd_line}
use sginx.Mini.Line.{get_fd_line_exact}

abbrev zeros : ℕ → ℕ
zeros i = 0

abbrev letters : List ℕ
letters = 71 ∷ 69 ∷ 84 ∷ []

line_test : (get_fd_line (letters ++ 13 ∷ 10 ∷ 72 ∷ []) zeros 8).count ≡ 3
unfolding get_fd_line
line_test = refl

letters-All : All (λ b. b ≢ 13) letters
letters-All = ground arith

get_fd_line_exact_example :
    (4 < 8
      → get_fd_line (letters ++ 13 ∷ 10 ∷ 72 ∷ []) zeros 8
        ≡ finish (fill zeros 0 letters) 3 (72 ∷ []))
    × (4 < 8
        → ◌≢◌ {A = ℕ} 65 10
        → get_fd_line (letters ++ 13 ∷ 65 ∷ 72 ∷ []) zeros 8
          ≡ finish (write (fill zeros 0 letters) 3 10) 4 (65 ∷ 72 ∷ []))
    × (4 < 8
        → get_fd_line (letters ++ 13 ∷ []) zeros 8
          ≡ finish (write (fill zeros 0 letters) 3 10) 4 [])
    × (◌≡◌ {A = ℕ} 4 8
        → get_fd_line (letters ++ 72 ∷ []) zeros 8 ≡ finish (fill zeros 0 letters) 3 (72 ∷ []))
    × (get_fd_line letters zeros 8 ≡ finish (fill zeros 0 letters) 3 [])
get_fd_line_exact_example = get_fd_line_exact letters (72 ∷ []) 65 8 zeros letters-All (omega arith)
