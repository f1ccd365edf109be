-- ===== src/Conf/Put.antt =====
-- A line that read_conf of src/core/sgx_util.c has stored in its buffer.
use sginx.Base.{
  ℕ, ◌+◌, ◌≤◌, ◌<◌, ◌≡◌, ◌∙◌, sym, refl, inl, inr, List, [], ◌∷◌, ◌++◌, arith, length,
  length-append, write, fill, cell, Bool-cases, ltb,
}
use sginx.Base.Fill.{fill-away, fill-inside, cell-front, cell-back}

-- the buffer behind a line that fgets has stored and whose line feed has become a NUL
abbrev pub put : (ℕ → ℕ) → ℕ → List ℕ → ℕ → ℕ
put buf at cs = write (fill buf at ((cs ++ b'\n' ∷ []) ++ 0 ∷ [])) (at + length cs) 0

pub record IsPut (buf : ℕ → ℕ) (at : ℕ) (cs : List ℕ) (buf' : ℕ → ℕ) : Type 0 where
  pub inside : (k : ℕ) → k ≤ length cs → buf' (at + k) ≡ cell (cs ++ 0 ∷ []) k
  pub last : buf' (at + length cs + 1) ≡ 0
  pub before : (i : ℕ) → i < at → buf' i ≡ buf i
  pub behind : (i : ℕ) → at + length cs + 1 < i → buf' i ≡ buf i

pub put-IsPut : (buf : ℕ → ℕ) (at : ℕ) (cs : List ℕ) → IsPut buf at cs (put buf at cs)
put-IsPut buf at cs =
    let all = (cs ++ b'\n' ∷ []) ++ 0 ∷ [] in
    let size : length all ≡ length cs + 2 =
      omega (arith, length-append cs (b'\n' ∷ []), length-append (cs ++ b'\n' ∷ []) (0 ∷ [])) in
    record {
      inside = λ k le. elim (Bool-cases (ltb k (length cs))) [
        | inl e ↦
            let lt : k < length cs = ground arith in
            let away : put buf at cs (at + k) ≡ fill buf at all (at + k) = ground arith in
            away
            ∙ fill-inside buf at all k (at + k) (omega (arith, size)) refl
            ∙ cell-front (cs ++ b'\n' ∷ []) (0 ∷ []) k
                (omega (arith, length-append cs (b'\n' ∷ [])))
            ∙ cell-front cs (b'\n' ∷ []) k lt
            ∙ sym (cell-front cs (0 ∷ []) k lt)
        | inr e ↦
            let same : k ≡ length cs + 0 = ground arith in
            ground (arith, cell-back cs (0 ∷ []) 0 k same, same)
      ];
      last =
          let away : put buf at cs (at + length cs + 1) ≡ fill buf at all (at + length cs + 1) =
            ground arith in
          away
          ∙ fill-inside buf at all (length cs + 1) (at + length cs + 1) (omega (arith, size))
              (omega arith)
          ∙ cell-back (cs ++ b'\n' ∷ []) (0 ∷ []) 0 (length cs + 1)
              (omega (arith, length-append cs (b'\n' ∷ [])));
      before = λ i lt. ground (arith, (fill-away buf at all i).0 lt);
      behind = λ i lt. ground (arith, (fill-away buf at all i).1 (omega (arith, size)));
    }
