-- ===== src/Lines/Write.antt =====
-- Writeline of src/core/sgx_rush.c.
use sginx.Base.{
  ℕ, zero, suc, ◌+◌, ◌-◌, ◌<◌, ◌≤◌, ◌≡◌, refl, sym, ap, ◌∙◌, List, [], ◌∷◌, ◌++◌, arith, lt→ltb,
  append_assoc, append-nil,
}
use sginx.Base.Run.{ok}
use sginx.Lines.{
  returned, failed, WriteAnswer, wrote, stopped, refused, slice, writeline_loop, writeline,
}

-- the answers write `n` bytes altogether, at least one each time, and interruptions
pub data Accepts : List WriteAnswer → ℕ → Type 0 where
  nothing : Accepts [] 0
  pause : (answers : List WriteAnswer) (n : ℕ) → Accepts answers n → Accepts (stopped ∷ answers) n
  some_bytes :
      (k : ℕ) (answers : List WriteAnswer) (n : ℕ)
      → 0 < k
      → Accepts answers n
      → Accepts (wrote k ∷ answers) (k + n)

slice-append :
    (buf : ℕ → ℕ) (i n m j k : ℕ)
    → k ≡ n + m
    → j ≡ i + n
    → slice buf i k ≡ slice buf i n ++ slice buf j m
slice-append buf i zero m j k ek ej =
    let e : k ≡ m = omega arith in let e' : j ≡ i = omega arith in rw (e, e') refl
slice-append buf i (suc n) m j zero ek ej = absurd (omega arith)
slice-append buf i (suc n) m j (suc k) ek ej =
    ap (λ l. buf i ∷ l) (slice-append buf (suc i) n m j k (omega arith) (omega arith))

complete :
    (answers : List WriteAnswer) (max_len : ℕ) (buf : ℕ → ℕ) (i : ℕ) (sent : List ℕ)
    → writeline_loop answers max_len buf i 0 sent ≡ ok (returned max_len, sent)
unfolding writeline_loop
complete [] max_len buf i sent = refl
complete (wrote n ∷ answers) max_len buf i sent = refl
complete (stopped ∷ answers) max_len buf i sent = refl
complete (refused ∷ answers) max_len buf i sent = refl

-- the loop runs over what the answers write
writeline_loop-Accepts :
    (front rest : List WriteAnswer) (n max_len : ℕ) (buf : ℕ → ℕ) (i left : ℕ) (sent : List ℕ)
    → Accepts front n
    → n ≤ left
    → writeline_loop (front ++ rest) max_len buf i left sent
      ≡ writeline_loop rest max_len buf (i + n) (left - n) (sent ++ slice buf i n)
unfolding writeline_loop
writeline_loop-Accepts _ rest _ max_len buf i left sent nothing le =
    let e : i + 0 ≡ i = omega arith in
    let e' : left - 0 ≡ left = omega arith in rw (e, e', append-nil sent) refl
writeline_loop-Accepts _ rest _ max_len buf i zero sent (pause answers n a) le =
    sym (complete (answers ++ rest) max_len buf i sent)
    ∙ writeline_loop-Accepts answers rest n max_len buf i 0 sent a le
writeline_loop-Accepts _ rest _ max_len buf i (suc left) sent (pause answers n a) le =
    rw (lt→ltb 0 (suc left) (omega arith))
      (writeline_loop-Accepts answers rest n max_len buf i (suc left) sent a le)
writeline_loop-Accepts _ rest _ max_len buf i left sent (some_bytes k answers n more a) le =
    let e : i + k + n ≡ i + (k + n) = omega arith in
    let e' : left - k - n ≡ left - (k + n) = omega arith in
    let parts =
      append_assoc sent (slice buf i k) (slice buf (i + k) n)
      ∙ ap (λ l. sent ++ l) (sym (slice-append buf i k n (i + k) (k + n) refl refl)) in
    rw (lt→ltb 0 left (omega arith)) (
      writeline_loop-Accepts answers rest n max_len buf (i + k) (left - k) (sent ++ slice buf i k) a
        (omega arith)
      ∙ rw (e, e', parts) refl)

-- When the calls of write take the whole block, at least one byte each time and with interruptions
-- between them, Writeline returns the length, and the descriptor has received the bytes of the
-- block in their order, each once. When a call fails before, it returns -1, and the descriptor has
-- received the bytes that were taken.
pub writeline_exact :
    (front rest : List WriteAnswer) (n max_len : ℕ) (buf : ℕ → ℕ)
    → Accepts front n
    → n ≤ max_len
    → (n ≡ max_len
        → writeline (front ++ rest) max_len buf ≡ ok (returned max_len, slice buf 0 max_len))
      × (n < max_len → writeline (front ++ refused ∷ rest) max_len buf ≡ ok (failed, slice buf 0 n))
unfolding writeline writeline_loop
writeline_exact front rest n max_len buf a le = (
  (λ e.
      let done : max_len - n ≡ 0 = omega arith in
      writeline_loop-Accepts front rest n max_len buf 0 max_len [] a le
      ∙ rw done (complete rest max_len buf (0 + n) (slice buf 0 n))
      ∙ ap (λ k. ok (returned max_len, slice buf 0 k)) e),
  (λ lt.
      writeline_loop-Accepts front (refused ∷ rest) n max_len buf 0 max_len [] a le
      ∙ rw (lt→ltb 0 (max_len - n) (omega arith)) refl),
)
