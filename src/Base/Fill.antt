-- ===== src/Base/Fill.antt =====
-- Bytes that are stored into a buffer one behind the other, and the cells of lists.
use sginx.Base.{
  fill, ℕ, zero, suc, ◌+◌, ◌≤◌, ◌<◌, ◌≡◌, ◌∙◌, ap, ◌++◌, refl, List, [], ◌∷◌, arith, write, length,
  cell,
}

pub fill-away :
    (buf : ℕ → ℕ) (i : ℕ) (cs : List ℕ) (j : ℕ)
    → (j < i → fill buf i cs j ≡ buf j) × (i + length cs ≤ j → fill buf i cs j ≡ buf j)
unfolding fill
fill-away buf i [] j = ((λ lt. refl), λ le. refl)
fill-away buf i (c ∷ cs) j =
    let rest = fill-away (write buf i c) (suc i) cs j in
    ((λ lt. rest.0 (omega arith) ∙ ground arith), (λ le. rest.1 (omega arith) ∙ ground arith))

pub fill-inside :
    (buf : ℕ → ℕ) (i : ℕ) (cs : List ℕ) (k j : ℕ)
    → k < length cs
    → j ≡ i + k
    → fill buf i cs j ≡ cell cs k
unfolding fill
fill-inside buf i [] k j lt e = absurd (omega arith)
fill-inside buf i (c ∷ cs) zero j lt e =
    (fill-away (write buf i c) (suc i) cs j).0 (omega arith) ∙ ground arith
fill-inside buf i (c ∷ cs) (suc k) j lt e =
    fill-inside (write buf i c) (suc i) cs k j (omega arith) (omega arith)

pub cell-front : (cs ds : List ℕ) (k : ℕ) → k < length cs → cell (cs ++ ds) k ≡ cell cs k
cell-front [] ds k lt = absurd (omega arith)
cell-front (c ∷ cs) ds zero lt = refl
cell-front (c ∷ cs) ds (suc k) lt = cell-front cs ds k (omega arith)

pub cell-back : (cs ds : List ℕ) (j k : ℕ) → k ≡ length cs + j → cell (cs ++ ds) k ≡ cell ds j
cell-back [] ds j k e = ap (cell ds) (omega arith)
cell-back (c ∷ cs) ds j zero e = absurd (omega arith)
cell-back (c ∷ cs) ds j (suc k) e = cell-back cs ds j k (omega arith)
