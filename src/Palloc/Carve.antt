-- ===== src/Palloc/Carve.antt =====
-- The small allocations of src/core/sgx_palloc.c that the pool's own block has room for.
use sginx.Base.{
  ℕ, ◌+◌, ◌%◌, ◌^◌, ◌≤◌, ◌<◌, ◌≡◌, refl, Bool, true, false, Option, none, some, List, [], ◌∷◌,
  arith, All, leb, ap, subst, write,
}
use sginx.Base.Run.{Run, ok, fault, Returns, returns, Returns-bind, ◌>>=◌}
use sginx.Palloc.{
  Pool, Data, Answers, create_pool, palloc_small, find_room, small_begin, pool_header, largest,
}
use sginx.Palloc.Alloc.{palloc}

pub small_begin_bounds :
    (pool : Pool) (align : Bool)
    → let begin = (pool.data_at pool.self).begin in
      (begin ≤ small_begin pool align)
      × (small_begin pool align ≤ begin + 7)
      × (align ≡ true → small_begin pool align % 8 ≡ 0)
small_begin_bounds pool true = (omega arith, omega arith, λ e. omega arith)
small_begin_bounds pool false = (omega arith, omega arith, λ e. ground arith)

-- the pool's own block with what is used of it
abbrev pub used : Pool → ℕ → Pool
used pool begin = record pool {
  data_at = write pool.data_at pool.self (record (pool.data_at pool.self) { begin = begin });
}

pub small_fits :
    (pool : Pool) (size : ℕ) (align : Bool) (memalign : Option ℕ)
    → pool.current ≡ pool.self
    → (pool.data_at pool.self).end < 2 ^ 64
    → small_begin pool align + size ≤ (pool.data_at pool.self).end
    → palloc_small pool size align memalign
      ≡ ok (some (small_begin pool align), used pool (small_begin pool align + size))
unfolding palloc_small find_room
small_fits pool size align memalign own small fits = ground (arith, own)

-- an allocation: how many bytes, and whether by sgx_palloc or by sgx_pnalloc
pub record Want : Type 0 where
  pub size : ℕ
  pub align : Bool

abbrev pub no_memory : Answers
no_memory = record { alloc = none; memalign = none }

-- the addresses of allocations made one after the other, where the system has no more memory
abbrev pub allot : Pool → List Want → Run (List ℕ × Pool)
allot pool [] = ok ([], pool)
allot pool (w ∷ wants) = palloc pool w.size w.align no_memory >>= λ (got, pool'). elim got [
  | none ↦ fault
  | some m ↦ allot pool' wants >>= λ (rest, last). ok (m ∷ rest, last)
]

-- enough bytes for the allocations, wherever they begin
abbrev pub room_for : List Want → ℕ
room_for [] = 0
room_for (w ∷ wants) = w.size + 7 + room_for wants

-- the places follow each other from `low` to `high`, and are aligned where this is wanted
pub data Apart : ℕ → List Want → List ℕ → ℕ → Type 0 where
  apart_nil : {low high : ℕ} → low ≤ high → Apart low [] [] high
  apart_cons :
      {low high : ℕ} {w : Want} {wants : List Want} {m : ℕ} {rest : List ℕ}
      → low ≤ m
      → (w.align ≡ true → m % 8 ≡ 0)
      → Apart (m + w.size) wants rest high
      → Apart low (w ∷ wants) (m ∷ rest) high

used-data :
    (pool : Pool) (begin : ℕ)
    → (used pool begin).data_at pool.self ≡ record (pool.data_at pool.self) { begin = begin }
used-data pool begin = ground arith

allot-Apart_from :
    (pool : Pool) (d : Data) (wants : List Want)
    → pool.current ≡ pool.self
    → pool.data_at pool.self ≡ d
    → d.end < 2 ^ 64
    → All (λ w. w.size ≤ pool.max_size) wants
    → d.begin + room_for wants ≤ d.end
    → Returns (λ (places, pool'). Apart d.begin wants places d.end) (allot pool wants)
unfolding palloc
allot-Apart_from pool d [] own is small sizes room = returns (apart_nil (omega arith))
allot-Apart_from pool d (w ∷ wants) own is small sizes room =
    let (low, high, even) = small_begin_bounds pool w.align in
    let begins = ap (λ (x : Data). x.begin) is in
    let ends = ap (λ (x : Data). x.end) is in
    let place = small_begin pool w.align in
    let fits =
      small_fits pool w.size w.align none own (omega (arith, ends)) (omega (arith, begins, ends)) in
    let next = used pool (place + w.size) in
    let rest =
      allot-Apart_from next (record (pool.data_at pool.self) { begin = place + w.size }) wants own
        (used-data pool (place + w.size)) (omega (arith, ends)) sizes.1
        (omega (arith, begins, ends)) in
    let fine : leb w.size pool.max_size ≡ true = ground (arith, sizes.0) in
    rw (fine, fits)
      (Returns-bind rest (λ (places, last) apart. returns (
        apart_cons (omega (arith, begins)) even
          (subst (Apart (place + w.size) wants places) ends apart))))

wants_fit :
    (pagesize size : ℕ) (wants : List Want)
    → pagesize < 2 ^ 64
    → size < 2 ^ 64
    → All (λ w. w.size < pagesize) wants
    → pool_header + room_for wants ≤ size
    → All (λ w. w.size ≤ largest pagesize size) wants
wants_fit pagesize size [] page small sizes room = tt
wants_fit pagesize size (w ∷ wants) page small sizes room =
    (ground arith, wants_fit pagesize size wants page small sizes.1 (omega arith))

-- A pool is created with `size` bytes at an address `p`. Allocations of fewer than a page each, by
-- sgx_palloc and sgx_pnalloc in any order, that with 7 bytes more each fit into the pool, all
-- succeed without memory from the system. Their places follow each other behind the pool's header
-- and do not go past its end, and those of sgx_palloc are divisible by 8.
pub created-Apart :
    (pagesize size p : ℕ) (wants : List Want)
    → pagesize < 2 ^ 64
    → p + size < 2 ^ 64
    → All (λ w. w.size < pagesize) wants
    → pool_header + room_for wants ≤ size
    → (pool : Pool) × (create_pool pagesize size (some p) ≡ some pool)
      × Returns
          (λ (places, pool'). Apart (p + pool_header) wants places (p + size))
          (allot pool wants)
unfolding create_pool
created-Apart pagesize size p wants page small sizes room = (
  _,
  refl,
  allot-Apart_from _ _ wants refl refl small
      (wants_fit pagesize size wants page (omega arith) sizes room) (omega arith),
)
