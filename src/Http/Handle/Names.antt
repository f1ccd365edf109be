-- ===== src/Http/Handle/Names.antt =====
-- The comparison of header names and values in src/http/http_request.c.
use sginx.Base.{
  ℕ, zero, suc, ◌<◌, ◌≡◌, ◌↔◌, refl, true, List, [], ◌∷◌, ◌==◌, arith, Bool-cases, inl, inr, length,
  cell,
}
use sginx.Http.Handle.{same_text}

-- the texts agree as far as `n` and the name go, and the first one ends with the name if `n` goes on
abbrev pub IsSameText : (ℕ → ℕ) → ℕ → (ℕ → ℕ) → List ℕ → Type 0
IsSameText fold n s name =
    ((i : ℕ) → i < n → i < length name → fold (s i) ≡ fold (cell name i))
    × (length name < n → s (length name) ≡ 0)

agree_cons :
    (fold : ℕ → ℕ) (k : ℕ) (s : ℕ → ℕ) (c : ℕ) (name : List ℕ)
    → fold (s 0) ≡ fold c
    → ((i : ℕ) → i < k → i < length name → fold (s (suc i)) ≡ fold (cell name i))
    → (i : ℕ) → i < suc k
    → i < length (c ∷ name)
    → fold (s i) ≡ fold (cell (c ∷ name) i)
agree_cons fold k s c name first later zero lt lt' = first
agree_cons fold k s c name first later (suc i) lt lt' = later i (omega arith) (omega arith)

-- The comparison succeeds exactly if the first `n` bytes agree with the name as far as both go,
-- and, where `n` is larger than the name, the byte behind them is NUL. So every beginning of a name
-- is taken for the name, and so is the empty text.
same_text_exact :
    (fold : ℕ → ℕ) (n : ℕ) (s : ℕ → ℕ) (name : List ℕ)
    → same_text fold n s name ≡ true ↔ IsSameText fold n s name
unfolding same_text
same_text_exact fold zero s name =
    ((λ e. ((λ i lt. absurd (omega arith)), λ lt. absurd (omega arith))), λ h. refl)
same_text_exact fold (suc k) s [] = (
  (λ e. ((λ i lt lt'. absurd (omega arith)), λ lt. ground arith)),
  λ h. ground (arith, h.1 (omega arith)),
)
same_text_exact fold (suc k) s (c ∷ name) = elim (Bool-cases (fold (s 0) == fold c)) [
  | inl e ↦ rw e (
    (λ h.
        let both = (same_text_exact fold k (λ i. s (suc i)) name).0 h in
        (agree_cons fold k s c name (ground arith) both.0, λ lt. both.1 (omega arith))),
    (λ h.
        (same_text_exact fold k (λ i. s (suc i)) name).1
          ((λ i lt lt'. h.0 (suc i) (omega arith) (omega arith)), λ lt. h.1 (omega arith))),
  )
  | inr e ↦ rw e (
    (λ h. absurd (ground arith)),
    λ h. absurd (ground (arith, h.0 0 (omega arith) (omega arith))),
  )
]
