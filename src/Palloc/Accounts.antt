-- ===== src/Palloc/Accounts.antt =====
-- Every large block of a pool of src/core/sgx_palloc.c is freed once.
use sginx.Base.{ℕ, ◌+◌, ◌≡◌, Option, List, [], ◌∷◌, ◌++◌}
use sginx.Base.Run.{Run, ok, ◌>>=◌}
use sginx.Palloc.{Pool, Answers}
use sginx.Palloc.Alloc.{palloc_large, pmemalign, pfree}
use sginx.Palloc.Release.{reset_pool}
use sginx.Palloc.Linked.{IsLinked}
use sginx.Palloc.Live.{times, frees, held, live}

-- an operation on large blocks, with what the system answers to it
pub data LargeOp : Type 0 where
  keeps : Answers → LargeOp
  aligns : Option ℕ → Option ℕ → LargeOp
  releases : Option ℕ → LargeOp
  resets : LargeOp

abbrev pub perform_large : Pool → LargeOp → Run Pool
perform_large pool (keeps answers) = palloc_large pool answers >>= λ (p, pool'). ok pool'
perform_large pool (aligns got memalign) = pmemalign pool got memalign >>= λ (p, pool'). ok pool'
perform_large pool (releases p) = ok (pfree pool p).1
perform_large pool resets = ok (reset_pool pool)

-- the large block that the system gives for it
abbrev pub given : LargeOp → List ℕ
given (keeps answers) = held answers.alloc []
given (aligns got memalign) = held got []
given (releases p) = []
given resets = []

abbrev pub perform_all_large : Pool → List LargeOp → Run Pool
perform_all_large pool [] = ok pool
perform_all_large pool (o ∷ os) = perform_large pool o >>= λ pool'. perform_all_large pool' os

abbrev pub all_given : List LargeOp → List ℕ
all_given [] = []
all_given (o ∷ os) = given o ++ all_given os

-- how often a block has been freed or is held
abbrev books : ℕ → Pool → ℕ
books x pool = frees x pool.calls + times x (live pool.large)

-- the books behind an operation that was given some blocks
record IsKept (pool : Pool) (blocks : List ℕ) (pool' : Pool) : Type 0 where
  linked : IsLinked pool'
  balance : (x : ℕ) → books x pool' ≡ books x pool + times x blocks
