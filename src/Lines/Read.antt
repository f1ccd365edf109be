-- ===== src/Lines/Read.antt =====
-- Readline of src/core/sgx_rush.c.
use sginx.Base.{
  fill, ℕ, suc, ◌+◌, ◌<◌, ◌≤◌, ◌≡◌, ◌≢◌, true, false, inl, inr, Bool-cases, refl, sym, ap, ◌∙◌,
  List, [], ◌∷◌, ◌++◌, ltb, ◌==◌, arith, write, length, lt→ltb, le→not_ltb,
}
use sginx.Base.Run.{ok}
use sginx.Lines.{
  returned, failed, ReadAnswer, byte, at_end, interrupted, broken, new_line, finish, readline_loop,
  readline,
}

-- the answers deliver these bytes, none of which ends a line, and interruptions
pub data Delivers : List ReadAnswer → List ℕ → Type 0 where
  nothing : Delivers [] []
  pause :
      (answers : List ReadAnswer) (cs : List ℕ)
      → Delivers answers cs
      → Delivers (interrupted ∷ answers) cs
  one :
      (c : ℕ) (answers : List ReadAnswer) (cs : List ℕ)
      → c ≢ new_line
      → Delivers answers cs
      → Delivers (byte c ∷ answers) (c ∷ cs)

not_equal : (a b : ℕ) → a ≢ b → (a == b) ≡ false
not_equal a b ne = ground arith

full-finish :
    (answers : List ReadAnswer) (max_len : ℕ) (buf : ℕ → ℕ) (i len : ℕ)
    → max_len ≤ len
    → readline_loop answers max_len buf i len ≡ finish buf i len
unfolding readline_loop
full-finish [] max_len buf i len le = rw (le→not_ltb len max_len le) refl
full-finish (byte c ∷ answers) max_len buf i len le = rw (le→not_ltb len max_len le) refl
full-finish (at_end ∷ answers) max_len buf i len le = rw (le→not_ltb len max_len le) refl
full-finish (interrupted ∷ answers) max_len buf i len le = rw (le→not_ltb len max_len le) refl
full-finish (broken ∷ answers) max_len buf i len le = rw (le→not_ltb len max_len le) refl

same_loop :
    (answers : List ReadAnswer) (max_len : ℕ) (buf : ℕ → ℕ) (i j len len' : ℕ)
    → i ≡ j
    → len ≡ len'
    → readline_loop answers max_len buf i len ≡ readline_loop answers max_len buf j len'
same_loop answers max_len buf i j len len' e e' = rw (e, e') refl

-- the loop runs over what the answers deliver
readline_loop-Delivers :
    (front rest : List ReadAnswer) (cs : List ℕ) (max_len : ℕ) (buf : ℕ → ℕ) (i len : ℕ)
    → Delivers front cs
    → len + length cs ≤ max_len
    → readline_loop (front ++ rest) max_len buf i len
      ≡ readline_loop rest max_len (fill buf i cs) (i + length cs) (len + length cs)
unfolding readline_loop fill
readline_loop-Delivers _ rest _ max_len buf i len nothing le =
    same_loop rest max_len buf i (i + 0) len (len + 0) (omega arith) (omega arith)
readline_loop-Delivers _ rest _ max_len buf i len (pause answers cs d) le =
    let later = readline_loop-Delivers answers rest cs max_len buf i len d le in
    elim (Bool-cases (ltb len max_len)) [
      | inl e ↦ rw e later
      | inr e ↦ rw e (sym (full-finish (answers ++ rest) max_len buf i len (ground arith)) ∙ later)
    ]
readline_loop-Delivers _ rest _ max_len buf i len (one c answers cs ne d) le =
    rw (lt→ltb len max_len (omega arith), not_equal c new_line ne)
      (readline_loop-Delivers answers rest cs max_len (write buf i c) (suc i) (suc len) d
          (omega arith)
        ∙ same_loop rest max_len (fill (write buf i c) (suc i) cs) (suc i + length cs)
            (i + suc (length cs)) (suc len + length cs) (len + suc (length cs)) (omega arith)
            (omega arith))

not_alone :
    (cs : List ℕ)
    → (cs ≢ [] → (1 + length cs == 1) ≡ false) × (cs ≡ [] → (1 + length cs == 1) ≡ true)
not_alone [] = ((λ ne. absurd (ne refl)), λ e. refl)
not_alone (c ∷ cs) = ((λ ne. ground arith), λ e. absurd (ground arith))

fill-nothing : (buf : ℕ → ℕ) (cs : List ℕ) → cs ≡ [] → fill buf 0 cs ≡ buf
unfolding fill
fill-nothing buf [] e = refl
fill-nothing buf (c ∷ cs) e = absurd (ground arith)

-- What Readline does on a read of bytes that end no line, with interruptions between them, which
-- are read again. A new line that follows within the length is stored with the bytes, terminated by
-- NUL, and the number of the stored bytes is returned. If the length is used up, or the stream ends
-- behind at least one byte, the bytes are stored and terminated, and one more than their number is
-- returned. An end of the stream at once returns 0 and stores nothing; an error returns -1.
pub readline_exact :
    (front rest : List ReadAnswer) (cs : List ℕ) (max_len : ℕ) (buf : ℕ → ℕ)
    → Delivers front cs
    → 1 + length cs ≤ max_len
    → (1 + length cs < max_len
        → readline (front ++ byte new_line ∷ rest) max_len buf
          ≡ finish (write (fill buf 0 cs) (length cs) new_line) (suc (length cs)) (1 + length cs))
      × (1 + length cs ≡ max_len
          → readline (front ++ rest) max_len buf ≡ finish (fill buf 0 cs) (length cs) max_len)
      × (1 + length cs < max_len
          → cs ≢ []
          → readline (front ++ at_end ∷ rest) max_len buf
            ≡ finish (fill buf 0 cs) (length cs) (1 + length cs))
      × (1 + length cs < max_len
          → cs ≡ []
          → readline (front ++ at_end ∷ rest) max_len buf ≡ ok (returned 0, buf))
      × (1 + length cs < max_len
          → readline (front ++ broken ∷ rest) max_len buf ≡ ok (failed, fill buf 0 cs))
unfolding readline readline_loop
readline_exact front rest cs max_len buf d le =
    let run = λ (more : List ReadAnswer).
      readline_loop-Delivers front more cs max_len buf 0 1 d le
      ∙ same_loop more max_len (fill buf 0 cs) (0 + length cs) (length cs) (1 + length cs)
          (1 + length cs) (omega arith) refl in
    (
      (λ lt. run (byte new_line ∷ rest) ∙ rw (lt→ltb (1 + length cs) max_len lt) refl),
      (λ e.
          run rest
          ∙ full-finish rest max_len (fill buf 0 cs) (length cs) (1 + length cs) (omega arith)
          ∙ ap (finish (fill buf 0 cs) (length cs)) e),
      (λ lt ne.
          run (at_end ∷ rest) ∙ rw (lt→ltb (1 + length cs) max_len lt, (not_alone cs).0 ne) refl),
      (λ lt e.
          run (at_end ∷ rest)
          ∙ rw (lt→ltb (1 + length cs) max_len lt, (not_alone cs).1 e)
              (ap (λ b. ok (returned 0, b)) (fill-nothing buf cs e))),
      (λ lt. run (broken ∷ rest) ∙ rw (lt→ltb (1 + length cs) max_len lt) refl),
    )
