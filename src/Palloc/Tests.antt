-- ===== src/Palloc/Tests.antt =====
-- Pools of 1024 bytes, and the theorems at them.
use sginx.Base.{
  ℕ, ◌+◌, ◌≡◌, ◌≤◌, ◌<◌, refl, inr, true, false, Option, none, some, List, [], ◌∷◌, arith,
}
use sginx.Base.Run.{Run, ok, Returns, ◌>>=◌}
use sginx.Palloc.{Pool, create_pool, palloc_small, find_room, pool_header, largest}
use sginx.Palloc.Alloc.{palloc}
use sginx.Palloc.Carve.{Want, allot, Apart, created-Apart}
use sginx.Palloc.Block.{IsSingle, palloc_overruns}
use sginx.Palloc.Operations.{Operation, pallocs, cleanup_adds, pfrees, resets}
use sginx.Palloc.Accounts.{LargeOp, keeps, releases}

abbrev wants : List Want
wants =
    record { size = 13; align = true }
    ∷ record { size = 5; align = false }
    ∷ record { size = 8; align = true }
    ∷ []

abbrev places_of : Run (List ℕ × Pool) → Option (List ℕ)
places_of (ok (places, pool)) = some places
places_of _ = none

-- a pool of 1024 bytes at the address 4096, with pages of 4096 bytes
abbrev fresh : Pool
fresh = record {
  self = 4096;
  data_at = λ a. record { begin = 4096 + pool_header; end = 4096 + 1024; failed = 0 };
  more = [];
  max_size = largest 4096 1024;
  current = 4096;
  chain = none;
  large = [];
  cleanup = [];
  calls = [];
}

allot_test : places_of (allot fresh wants) ≡ some (4176 ∷ 4189 ∷ 4200 ∷ [])
unfolding palloc palloc_small find_room
allot_test = refl

created-Apart_example :
    (pool : Pool) × (create_pool 4096 1024 (some 4096) ≡ some pool)
    × Returns
        (λ (places, pool'). Apart (4096 + pool_header) wants places (4096 + 1024))
        (allot pool wants)
created-Apart_example =
    created-Apart 4096 1024 4096 wants (omega arith) (omega arith)
      (omega arith, (omega arith, (omega arith, tt))) (omega arith)

-- the pool with 600 bytes taken
abbrev half : Pool
half = record fresh { data_at = λ a. record { begin = 4776; end = 5120; failed = 0 } }

half-IsSingle : IsSingle half
half-IsSingle = record {
  alone = refl;
  own = refl;
  most = ground arith;
  behind = omega arith;
  ordered = omega arith;
  even = omega arith;
  small = omega arith;
}

palloc_overruns_example :
    Returns
      (λ (p, pool'). (m : ℕ) × (p ≡ some m) × (m ≤ 5120) × (5120 < m + 600))
      (palloc half 600 true (record { alloc = none; memalign = some 8192 }) >>= λ (p, pool').
        palloc pool' 600 true (record { alloc = none; memalign = none }))
palloc_overruns_example =
    palloc_overruns half 600 8192 true none (record { alloc = none; memalign = none }) half-IsSingle
      (ground arith) (omega arith) (inr (omega arith)) (omega arith)

abbrev operations : List Operation
operations =
    pallocs 900 true (record { alloc = none; memalign = none })
    ∷ pallocs 900 true (record { alloc = none; memalign = some 8192 })
    ∷ cleanup_adds 2000 (record { alloc = none; memalign = none })
        (record { alloc = some 16384; memalign = some 32768 })
    ∷ pfrees (some 16384)
    ∷ resets
    ∷ []

abbrev large_ops : List LargeOp
large_ops =
    keeps (record { alloc = some 16384; memalign = none })
    ∷ releases (some 16384)
    ∷ keeps (record { alloc = some 32768; memalign = none })
    ∷ []
