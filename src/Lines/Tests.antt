-- ===== src/Lines/Tests.antt =====
-- Reads and writes of a few bytes, and the theorems at them.
use sginx.Base.{fill, ℕ, ◌<◌, ◌≡◌, ◌≢◌, refl, Option, none, some, List, [], ◌∷◌, ◌++◌, arith, write}
use sginx.Base.Run.{Run, ok}
use sginx.Lines.{
  Result, returned, failed, ReadAnswer, byte, at_end, interrupted, broken, new_line, finish,
  readline, WriteAnswer, wrote, stopped, refused, slice, writeline,
}
use sginx.Lines.Read.{Delivers, nothing, pause, one, readline_exact}
use sginx.Lines.Write.{Accepts, writeline_exact}

abbrev result_of : Run (Result × (ℕ → ℕ)) → Option Result
result_of (ok (r, buf)) = some r
result_of _ = none

abbrev answers : List ReadAnswer
answers = byte 65 ∷ interrupted ∷ byte 66 ∷ []

abbrev block : ℕ → ℕ
block i = 7

line_test : result_of (readline (answers ++ byte 10 ∷ []) 10 block) ≡ some (returned 3)
unfolding readline
line_test = refl

end_test : result_of (readline (answers ++ at_end ∷ []) 10 block) ≡ some (returned 3)
unfolding readline
end_test = refl

answers-Delivers : Delivers answers (65 ∷ 66 ∷ [])
answers-Delivers =
    one 65 _ _ (λ e. absurd (omega arith))
      (pause _ _ (one 66 _ _ (λ e. absurd (omega arith)) nothing))

readline_exact_example :
    (3 < 10
      → readline (answers ++ byte new_line ∷ []) 10 block
        ≡ finish (write (fill block 0 (65 ∷ 66 ∷ [])) 2 new_line) 3 3)
    × (◌≡◌ {A = ℕ} 3 10
        → readline (answers ++ []) 10 block ≡ finish (fill block 0 (65 ∷ 66 ∷ [])) 2 10)
    × (3 < 10
        → ◌≢◌ {A = List ℕ} (65 ∷ 66 ∷ []) []
        → readline (answers ++ at_end ∷ []) 10 block ≡ finish (fill block 0 (65 ∷ 66 ∷ [])) 2 3)
    × (3 < 10
        → ◌≡◌ {A = List ℕ} (65 ∷ 66 ∷ []) []
        → readline (answers ++ at_end ∷ []) 10 block ≡ ok (returned 0, block))
    × (3 < 10
        → readline (answers ++ broken ∷ []) 10 block ≡ ok (failed, fill block 0 (65 ∷ 66 ∷ [])))
readline_exact_example =
    readline_exact answers [] (65 ∷ 66 ∷ []) 10 block answers-Delivers (omega arith)

abbrev writes : List WriteAnswer
writes = wrote 2 ∷ stopped ∷ wrote 1 ∷ []

writes-Accepts : Accepts writes 3
writes-Accepts =
    Accepts.some_bytes 2 _ 1 (omega arith)
      (Accepts.pause _ 1 (Accepts.some_bytes 1 _ 0 (omega arith) Accepts.nothing))

writeline_exact_example :
    (◌≡◌ {A = ℕ} 3 3 → writeline (writes ++ []) 3 block ≡ ok (returned 3, slice block 0 3))
    × (3 < 3 → writeline (writes ++ refused ∷ []) 3 block ≡ ok (failed, slice block 0 3))
writeline_exact_example = writeline_exact writes [] 3 3 block writes-Accepts (omega arith)
