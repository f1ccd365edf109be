-- ===== src/Palloc/Operations.antt =====
-- Sequences of operations of src/core/sgx_palloc.c on one pool.
use sginx.Base.{ℕ, Bool, Option, none, some, List, [], ◌∷◌}
use sginx.Base.Run.{Run, ok, ◌>>=◌}
use sginx.Palloc.{Pool, Answers}
use sginx.Palloc.Alloc.{palloc, pmemalign, pcalloc, clear, pfree}
use sginx.Palloc.Release.{cleanup_add, reset_pool}
use sginx.Palloc.Linked.{IsLinked}

-- an operation on a pool, with what the system answers to it
pub data Operation : Type 0 where
  -- sgx_palloc or sgx_pnalloc
  pallocs : ℕ → Bool → Answers → Operation
  pmemaligns : Option ℕ → Option ℕ → Operation
  pcallocs : ℕ → Answers → Operation
  cleanup_adds : ℕ → Answers → Answers → Operation
  pfrees : Option ℕ → Operation
  resets : Operation

abbrev pub perform : Pool → Operation → Run Pool
perform pool (pallocs size align answers) =
    palloc pool size align answers >>= λ (p, pool'). ok pool'
perform pool (pmemaligns got memalign) = pmemalign pool got memalign >>= λ (p, pool'). ok pool'
perform pool (pcallocs size answers) = pcalloc pool size answers >>= λ (p, pool'). ok pool'
perform pool (cleanup_adds size first second) =
    cleanup_add pool size first second >>= λ (p, pool'). ok pool'
perform pool (pfrees p) = ok (pfree pool p).1
perform pool resets = ok (reset_pool pool)

abbrev pub perform_all : Pool → List Operation → Run Pool
perform_all pool [] = ok pool
perform_all pool (o ∷ os) = perform pool o >>= λ pool'. perform_all pool' os

pub clear-IsLinked :
    (size : ℕ) (got : Option ℕ × Pool) → IsLinked got.1 → IsLinked (clear size got).1
clear-IsLinked size (none, pool) v = v
clear-IsLinked size (some p, pool) v = v

abbrev OrNone : Option Pool → Type 0
OrNone none = Unit
OrNone (some pool) = IsLinked pool
