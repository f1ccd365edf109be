-- ===== src/Palloc.antt =====
-- src/core/sgx_palloc.c and .h: memory pools. The file does not compile; the model reads the
-- misspelt names (`page`, `poll`, `faild`, `fail`, `last`, `cleanp`, `clean -> fd`) as the locals and
-- fields they stand for, and `begin` and `data_begin` of sgx_palloc_small as one local.
--
-- The blocks of a pool are the address `self` of the pool and, in the order of their `next` links,
-- the addresses in `more`; the structs in the lists `large` and `cleanup` follow in the order of
-- theirs. What lies at different addresses is kept apart here, and pointers do not wrap. Logging and
-- the field `log` are left out. What sgx_memalign and sgx_alloc answer are arguments; the calls of
-- sgx_free, sgx_memzero and of cleanup handlers are recorded, the latest first.
pub mod Alloc
pub mod Release
pub mod Carve
pub mod Block
pub mod Linked
pub mod Operations
pub mod Files
pub mod Live
pub mod Accounts
mod Tests
use sginx.Base.{
  ℕ, ◌+◌, ◌*◌, ◌/◌, ◌%◌, ◌^◌, Bool, true, false, ◌&&◌, Option, none, some, List, [], ◌∷◌, ◌++◌, ltb,
  leb, ◌==◌, if◌then◌else◌, write, minus,
}
use sginx.Base.Run.{Run, ok, fault, ◌>>=◌}

-- sgx_pool_data_t, without `next`
pub record Data : Type 0 where
  pub begin : ℕ
  pub end : ℕ
  pub failed : ℕ

-- sgx_pool_large_t at its address, without `next`
pub record Large : Type 0 where
  pub at : ℕ
  pub alloc : Option ℕ

-- the functions that cleanups call: sgx_pool_cleanup_file, sgx_pool_delete_file, or another one
pub data Handler : Type 0 where
  cleanup_file delete_file : Handler
  other : ℕ → Handler

-- sgx_pool_cleanup_t at its address, without `next`
pub record Cleanup : Type 0 where
  pub at : ℕ
  pub handler : Option Handler
  pub argument : Option ℕ

pub data Call : Type 0 where
  freed : Option ℕ → Call
  zeroed : ℕ → ℕ → Call
  handled : Handler → Option ℕ → Call

-- sgx_pool_t
pub record Pool : Type 0 where
  pub self : ℕ
  pub data_at : ℕ → Data
  pub more : List ℕ
  pub max_size : ℕ
  pub current : ℕ
  pub chain : Option ℕ
  pub large : List Large
  pub cleanup : List Cleanup
  pub calls : List Call

-- what the calls of sgx_alloc and sgx_memalign answer during an allocation
pub record Answers : Type 0 where
  pub alloc : Option ℕ
  pub memalign : Option ℕ

-- sizeof(sgx_pool_t), with 8 bytes for a pointer and a size_t
abbrev pub pool_header : ℕ
pool_header = 80

-- sizeof(sgx_pool_data_t)
abbrev pub data_header : ℕ
data_header = 32

-- sgx_align_ptr(p, SGX_ALIGNMENT), with SGX_ALIGNMENT sizeof(unsigned long)
abbrev pub align_ptr : ℕ → ℕ
align_ptr p = (p + 7) / 8 * 8

-- `max_size` in sgx_create_pool, with sgx_pagesize
abbrev pub largest : ℕ → ℕ → ℕ
largest pagesize size =
    let rest = minus size pool_header in
    let most = minus pagesize 1 in if ltb rest most then rest else most

-- sgx_create_pool, with sgx_pagesize and the answer of sgx_memalign
unfoldable pub create_pool : ℕ → ℕ → Option ℕ → Option Pool
create_pool pagesize size none = none
create_pool pagesize size (some p) = some (record {
  self = p;
  data_at = λ a. record { begin = p + pool_header; end = p + size; failed = 0 };
  more = [];
  max_size = largest pagesize size;
  current = p;
  chain = none;
  large = [];
  cleanup = [];
  calls = [];
})

-- the blocks from the address on
abbrev pub since : ℕ → List ℕ → List ℕ
since current [] = []
since current (a ∷ more) = if a == current then a ∷ more else since current more

abbrev pub blocks : Pool → List ℕ
blocks pool = pool.self ∷ pool.more

-- the loop of sgx_palloc_block, from the block `now` over those that follow it
unfoldable pub count_failures : (ℕ → Data) → ℕ → ℕ → List ℕ → (ℕ → Data) × ℕ
count_failures data_at current now [] = (data_at, current)
count_failures data_at current now (next ∷ more) =
    let d = data_at now in
    let failed = (d.failed + 1) % 2 ^ 64 in
    count_failures (write data_at now (record d { failed = failed }))
      (if ltb 4 failed then next else current) next more

-- the new block at the address `m`, for a request of `size` bytes
abbrev pub new_data : ℕ → ℕ → Data
new_data m size = record { begin = align_ptr (m + data_header) + size; end = m + size; failed = 0 }

abbrev pub append_block : Pool → ℕ → ℕ → List ℕ → Run (Option ℕ × Pool)
append_block pool size m [] = fault
append_block pool size m (now ∷ rest) =
    let (data_at, current) =
      count_failures (write pool.data_at m (new_data m size)) pool.current now rest in
    ok (
      some (align_ptr (m + data_header)),
      record pool { data_at = data_at; more = pool.more ++ m ∷ []; current = current },
    )

-- sgx_palloc_block, with the answer of sgx_memalign
unfoldable pub palloc_block : Pool → ℕ → Option ℕ → Run (Option ℕ × Pool)
palloc_block pool size none = ok (none, pool)
palloc_block pool size (some m) = append_block pool size m (since pool.current (blocks pool))

-- the loop of sgx_palloc_small: the first block that passes its test
unfoldable pub find_room : (ℕ → Data) → ℕ → ℕ → List ℕ → Option ℕ
find_room data_at begin size [] = none
find_room data_at begin size (now ∷ rest) =
    if leb size (minus (data_at now).end begin) then some now else find_room data_at begin size rest

-- `begin` in sgx_palloc_small: the loop reads the pool's own, whichever block it has come to
abbrev pub small_begin : Pool → Bool → ℕ
small_begin pool align =
    let begin = (pool.data_at pool.self).begin in if align then align_ptr begin else begin

-- sgx_palloc_small
unfoldable pub palloc_small : Pool → ℕ → Bool → Option ℕ → Run (Option ℕ × Pool)
palloc_small pool size align memalign =
    let begin = small_begin pool align in
    elim (find_room pool.data_at begin size (since pool.current (blocks pool))) [
      | none ↦ palloc_block pool size memalign
      | some now ↦
          let used = record (pool.data_at now) { begin = begin + size } in
          ok (some begin, record pool { data_at = write pool.data_at now used })
    ]
