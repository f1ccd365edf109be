-- ===== src/Mini/Line.antt =====
-- What sgx_get_fd_line takes for a line.
use sginx.Base.{
  fill, ℕ, suc, ◌+◌, ◌-◌, ◌<◌, ◌≤◌, ◌≡◌, ◌≢◌, refl, ap, ◌∙◌, false, List, [], ◌∷◌, ◌++◌, ◌==◌,
  arith, write, length, lt→ltb, le→not_ltb, All, append-nil, sym,
}
use sginx.Mini.{finish, after_cr, line_loop, get_fd_line}

other : (a b : ℕ) → a ≢ b → (a == b) ≡ false
other a b ne = ground arith

same_loop :
    (rest : List ℕ) (size : ℕ) (buf : ℕ → ℕ) (i j : ℕ)
    → i ≡ j
    → line_loop rest size buf i ≡ line_loop rest size buf j
same_loop rest size buf i j e = rw e refl

line_loop-append :
    (cs rest : List ℕ) (size : ℕ) (buf : ℕ → ℕ) (i : ℕ)
    → All (λ c. c ≢ 13) cs
    → i + length cs ≤ size
    → line_loop (cs ++ rest) size buf i ≡ line_loop rest size (fill buf i cs) (i + length cs)
unfolding line_loop fill
line_loop-append [] rest size buf i plain le = same_loop rest size buf i (i + 0) (omega arith)
line_loop-append (c ∷ cs) rest size buf i plain le =
    rw (lt→ltb i size (omega arith), other c 13 plain.0)
      (line_loop-append cs rest size (write buf i c) (suc i) plain.1 (omega arith)
        ∙ same_loop rest size (fill (write buf i c) (suc i) cs) (suc i + length cs)
            (i + suc (length cs)) (omega arith))

full-finish :
    (rest : List ℕ) (size : ℕ) (buf : ℕ → ℕ) (i : ℕ)
    → size ≤ i
    → line_loop rest size buf i ≡ finish buf i rest
unfolding line_loop
full-finish [] size buf i le = refl
full-finish (c ∷ rest) size buf i le = rw (le→not_ltb i size le) refl

-- What sgx_get_fd_line does on bytes without a carriage return that fit the buffer with its NUL. If
-- CR LF follows, both are consumed and the bytes are the line, without an end. If a CR follows that
-- is the last byte or stands before a byte other than LF, the line ends in LF and that byte is
-- left. If the buffer is full, or the stream ends, the bytes are the line and the rest is left. The
-- number of stored bytes is returned, and a NUL stands behind them.
pub get_fd_line_exact :
    (cs rest : List ℕ) (c : ℕ) (size : ℕ) (buf : ℕ → ℕ)
    → All (λ b. b ≢ 13) cs
    → length cs < size
    → (suc (length cs) < size
        → get_fd_line (cs ++ 13 ∷ 10 ∷ rest) buf size ≡ finish (fill buf 0 cs) (length cs) rest)
      × (suc (length cs) < size
          → c ≢ 10
          → get_fd_line (cs ++ 13 ∷ c ∷ rest) buf size
            ≡ finish (write (fill buf 0 cs) (length cs) 10) (suc (length cs)) (c ∷ rest))
      × (suc (length cs) < size
          → get_fd_line (cs ++ 13 ∷ []) buf size
            ≡ finish (write (fill buf 0 cs) (length cs) 10) (suc (length cs)) [])
      × (suc (length cs) ≡ size
          → get_fd_line (cs ++ rest) buf size ≡ finish (fill buf 0 cs) (length cs) rest)
      × (get_fd_line cs buf size ≡ finish (fill buf 0 cs) (length cs) [])
unfolding get_fd_line line_loop after_cr
get_fd_line_exact cs rest c size buf plain fits =
    let run = λ (more : List ℕ).
      line_loop-append cs more (size - 1) buf 0 plain (omega arith)
      ∙ same_loop more (size - 1) (fill buf 0 cs) (0 + length cs) (length cs) (omega arith) in
    (
      (λ lt. run (13 ∷ 10 ∷ rest) ∙ rw (lt→ltb (length cs) (size - 1) (omega arith)) refl),
      (λ lt ne.
          run (13 ∷ c ∷ rest)
          ∙ rw (lt→ltb (length cs) (size - 1) (omega arith), other c 10 ne) refl),
      (λ lt. run (13 ∷ []) ∙ rw (lt→ltb (length cs) (size - 1) (omega arith)) refl),
      (λ e. run rest ∙ full-finish rest (size - 1) (fill buf 0 cs) (length cs) (omega arith)),
      ap (λ bytes. line_loop bytes (size - 1) buf 0) (sym (append-nil cs)) ∙ run [],
    )
