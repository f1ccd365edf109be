-- ===== src/Lines.antt =====
-- Readline and Writeline of src/core/sgx_rush.c.
-- What the calls of read and write answer, in turn, is an argument. The block at `sgx_ptr` is a
-- function from indices. A loop that has used up the answers is out of fuel.
pub mod Read
pub mod Write
mod Tests
use sginx.Base.{ℕ, zero, suc, ◌+◌, ◌-◌, Bool, List, [], ◌∷◌, ◌++◌, ltb, ◌==◌, if◌then◌else◌, write}
use sginx.Base.Run.{Run, ok, out_of_fuel}

-- what a call returns: a length, or -1
pub data Result : Type 0 where
  returned : ℕ → Result
  failed : Result

-- what read of one byte answers: a byte, 0 at the end of the stream, -1 with EINTR, -1 otherwise
pub data ReadAnswer : Type 0 where
  byte : ℕ → ReadAnswer
  at_end interrupted broken : ReadAnswer

abbrev pub new_line : ℕ
new_line = 10

-- `*sgx_buffer = 0; return sgx_len;`, where `i` is the index that sgx_buffer points at
abbrev pub finish : (buf : ℕ → ℕ) (i len : ℕ) → Run (Result × (ℕ → ℕ))
finish buf i len = ok (returned len, write buf i 0)

-- the loop of Readline
unfoldable pub readline_loop :
    List ReadAnswer → (max_len : ℕ) → (buf : ℕ → ℕ) (i len : ℕ) → Run (Result × (ℕ → ℕ))
readline_loop [] max_len buf i len = if ltb len max_len then out_of_fuel else finish buf i len
readline_loop (byte c ∷ rest) max_len buf i len =
    let stored = write buf i c in
    let later = readline_loop rest max_len stored (suc i) (suc len) in
    let round = if c == new_line then finish stored (suc i) len else later in
    if ltb len max_len then round else finish buf i len
readline_loop (at_end ∷ rest) max_len buf i len =
    let round = if len == 1 then ok (returned 0, buf) else finish buf i len in
    if ltb len max_len then round else finish buf i len
readline_loop (interrupted ∷ rest) max_len buf i len =
    let later = readline_loop rest max_len buf i len in
    if ltb len max_len then later else finish buf i len
readline_loop (broken ∷ rest) max_len buf i len =
    if ltb len max_len then ok (failed, buf) else finish buf i len

-- Readline
unfoldable pub readline : List ReadAnswer → (max_len : ℕ) → (ℕ → ℕ) → Run (Result × (ℕ → ℕ))
unfolding readline_loop
readline answers max_len buf = readline_loop answers max_len buf 0 1

-- what write answers: the number of bytes written, at least one; 0 or -1 with EINTR in errno; 0 or
-- -1 otherwise
pub data WriteAnswer : Type 0 where
  wrote : ℕ → WriteAnswer
  stopped refused : WriteAnswer

-- the bytes of a block from an index on
abbrev pub slice : (ℕ → ℕ) → (i n : ℕ) → List ℕ
slice buf i zero = []
slice buf i (suc n) = buf i ∷ slice buf (suc i) n

-- the loop of Writeline; `sent` is what the descriptor has received
unfoldable pub writeline_loop :
    List WriteAnswer
    → (max_len : ℕ) → (buf : ℕ → ℕ) (i left : ℕ) → (sent : List ℕ) → Run (Result × List ℕ)
writeline_loop [] max_len buf i left sent =
    if ltb 0 left then out_of_fuel else ok (returned max_len, sent)
writeline_loop (wrote n ∷ rest) max_len buf i left sent =
    let later = writeline_loop rest max_len buf (i + n) (left - n) (sent ++ slice buf i n) in
    if ltb 0 left then later else ok (returned max_len, sent)
writeline_loop (stopped ∷ rest) max_len buf i left sent =
    let later = writeline_loop rest max_len buf i left sent in
    if ltb 0 left then later else ok (returned max_len, sent)
writeline_loop (refused ∷ rest) max_len buf i left sent =
    if ltb 0 left then ok (failed, sent) else ok (returned max_len, sent)

-- Writeline
unfoldable pub writeline : List WriteAnswer → (max_len : ℕ) → (ℕ → ℕ) → Run (Result × List ℕ)
unfolding writeline_loop
writeline answers max_len buf = writeline_loop answers max_len buf 0 max_len []
