-- ===== src/Palloc/Alloc.antt =====
-- The allocations of src/core/sgx_palloc.c that may need a block of their own, and the release of
-- such a block.
use sginx.Base.{
  ℕ, ◌+◌, Bool, true, false, Option, none, some, List, [], ◌∷◌, ltb, leb, ◌==◌, if◌then◌else◌,
}
use sginx.Base.Run.{Run, ok, ◌>>=◌}
use sginx.Palloc.{Large, Pool, freed, zeroed, Answers, palloc_small}

-- sizeof(sgx_pool_large_t)
abbrev pub large_size : ℕ
large_size = 16

-- the loop of sgx_palloc_large: it stores the memory at the first of the next entries that has none
unfoldable pub reuse : ℕ → ℕ → List Large → Option (List Large)
reuse now cnt [] = none
reuse now cnt (l ∷ large) = elim l.alloc [
  | none ↦ some (record l { alloc = some now } ∷ large)
  | some a ↦
      let rest = reuse now (cnt + 1) large in
      if ltb 3 (cnt + 1) then none else elim rest [ none ↦ none | some r ↦ some (l ∷ r) ]
]

-- the end of sgx_palloc_large and of sgx_pmemalign: an entry for the memory, or the memory is freed
unfoldable pub add_large : ℕ → Option ℕ × Pool → Option ℕ × Pool
add_large now (none, pool) = (none, record pool { calls = freed (some now) ∷ pool.calls })
add_large now (some at, pool) =
    (some now, record pool { large = record { at = at; alloc = some now } ∷ pool.large })

-- sgx_palloc_large, once it has its memory
unfoldable pub keep_large : Pool → ℕ → Option ℕ → Run (Option ℕ × Pool)
keep_large pool now memalign = elim (reuse now 0 pool.large) [
  | some large ↦ ok (some now, record pool { large = large })
  | none ↦ do kept ← palloc_small pool large_size true memalign; ok (add_large now kept)
]

-- sgx_palloc_large
unfoldable pub palloc_large : Pool → Answers → Run (Option ℕ × Pool)
palloc_large pool answers = elim answers.alloc [
  | none ↦ ok (none, pool)
  | some now ↦ keep_large pool now answers.memalign
]

-- sgx_palloc where `align` is true, and sgx_pnalloc where it is false, without SGX_DEBUG_PALLOC
unfoldable pub palloc : Pool → ℕ → Bool → Answers → Run (Option ℕ × Pool)
palloc pool size align answers =
    if leb size pool.max_size
    then palloc_small pool size align answers.memalign
    else palloc_large pool answers

-- sgx_pmemalign, with the answers of its sgx_memalign and of the one in sgx_palloc_small
unfoldable pub pmemalign : Pool → Option ℕ → Option ℕ → Run (Option ℕ × Pool)
pmemalign pool none memalign = ok (none, pool)
pmemalign pool (some now) memalign = do
  kept ← palloc_small pool large_size true memalign
  ok (add_large now kept)

abbrev pub clear : ℕ → Option ℕ × Pool → Option ℕ × Pool
clear size (none, pool) = (none, pool)
clear size (some p, pool) = (some p, record pool { calls = zeroed p size ∷ pool.calls })

-- sgx_pcalloc
unfoldable pub pcalloc : Pool → ℕ → Answers → Run (Option ℕ × Pool)
pcalloc pool size answers = do got ← palloc pool size true answers; ok (clear size got)

-- what sgx_pfree returns
pub data Code : Type 0 where
  sgx_ok sgx_declined : Code

-- `p == large -> alloc`
abbrev pub same_pointer : Option ℕ → Option ℕ → Bool
same_pointer none none = true
same_pointer (some a) (some b) = a == b
same_pointer _ _ = false

-- the loop of sgx_pfree: the entries once the first with the pointer has lost it
unfoldable pub take_out : Option ℕ → List Large → Option (List Large)
take_out p [] = none
take_out p (l ∷ large) =
    let rest = take_out p large in
    if same_pointer p l.alloc
    then some (record l { alloc = none } ∷ large)
    else elim rest [ none ↦ none | some r ↦ some (l ∷ r) ]

-- sgx_pfree
unfoldable pub pfree : Pool → Option ℕ → Code × Pool
pfree pool p = elim (take_out p pool.large) [
  | none ↦ (sgx_declined, pool)
  | some large ↦ (sgx_ok, record pool { large = large; calls = freed p ∷ pool.calls })
]
