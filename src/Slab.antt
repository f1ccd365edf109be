-- ===== src/Slab.antt =====
-- src/core/sgx_slab.c and .h: what is there of the slab allocator. The model reads `pagenum` and
-- `stats` as the names they stand for. sgx_pagesize and sgx_pagesize_shift are taken for 4096 and 12;
-- sizeof(sgx_slab_pool_t), which has parts that nothing defines, is an argument. The memory holds the
-- structs of pages and slots by their addresses. Pointers do not wrap. The counters of the status, and
-- what the unfinished end of sgx_slab_alloc_locked would do, are left out.
pub mod Layout
pub mod Slots
pub mod Chunks
mod Tests
use sginx.Base.{
  ℕ, zero, suc, ◌+◌, ◌-◌, ◌*◌, ◌/◌, ◌%◌, ◌^◌, Bool, true, false, ◌&&◌, ltb, ◌==◌, if◌then◌else◌,
  write, minus,
}
use sginx.Base.Run.{Run, ok, out_of_fuel, ◌>>=◌}

abbrev pub pagesize : ℕ
pagesize = 4096

abbrev pub pagesize_shift : ℕ
pagesize_shift = 12

-- sgx_slab_page_s
pub record Page : Type 0 where
  pub slab : ℕ
  pub next : ℕ
  pub prev : ℕ

-- sizeof(sgx_slab_page_t) and sizeof(sgx_slab_status_t)
abbrev pub page_struct : ℕ
page_struct = 24

-- sgx_slab_pool_t, with the memory and the address of the pool's `free`
pub record SlabPool : Type 0 where
  pub self : ℕ
  pub header : ℕ
  pub free_at : ℕ
  pub memory : ℕ → Page
  pub min_size : ℕ
  pub min_shift : ℕ
  pub end : ℕ
  pub status : ℕ
  pub pages : ℕ
  pub start : ℕ
  pub last : ℕ
  pub pfree : ℕ

-- the static sizes of the file
pub record Sizes : Type 0 where
  pub max_size : ℕ
  pub exact_size : ℕ
  pub exact_shift : ℕ

-- `for(i; i >>= 1; shift ++)`, on fuel
unfoldable pub halvings : ℕ → ℕ → Run ℕ
halvings zero i = out_of_fuel
halvings (suc fuel) i =
    let later = (halvings fuel (i / 2) >>= λ k. ok (suc k)) in if i / 2 == 0 then ok 0 else later

-- sgx_slab_sizes_init, called once; a word has 64 bits
unfoldable pub sizes_init : Run Sizes
sizes_init =
    let exact = pagesize / 64 in
    halvings 64 exact >>= λ shift.
    ok (record { max_size = pagesize / 2; exact_size = exact; exact_shift = shift })

-- sgx_slab_slots
abbrev pub slab_slots : SlabPool → ℕ
slab_slots pool = pool.self + pool.header

abbrev pub slot_at : ℕ → ℕ → ℕ
slot_at slots i = slots + i * page_struct

-- the loop over the slots, from the slot `i` on, while `left` are left
unfoldable pub init_slots : ℕ → ℕ → ℕ → (ℕ → Page) → ℕ → Page
init_slots slots i zero memory = memory
init_slots slots i (suc left) memory =
    let at = slot_at slots i in
    init_slots slots (suc i) left (write memory at (record { slab = 0; next = at; prev = 0 }))

-- sgx_align_ptr(p, sgx_pagesize)
abbrev pub align_page : ℕ → ℕ
align_page p = (p + 4095) / 4096 * 4096

-- the signed `m` of sgx_slab_init, as 64 bits, is positive
abbrev pub is_positive : ℕ → Bool
is_positive m = ltb 0 m && ltb m (2 ^ 63)

-- how many pages sgx_slab_init finds too many between `start` and `end`
abbrev pub too_many : (end start page_num : ℕ) → ℕ
too_many end start page_num = minus page_num (minus end start / pagesize)

abbrev pub page_count : (end start page_num : ℕ) → ℕ
page_count end start page_num =
    let m = too_many end start page_num in if is_positive m then page_num - m else page_num

-- the end of sgx_slab_init, from the number of pages on
abbrev pub place_pages : SlabPool → (memory : ℕ → Page) → (pages page_num : ℕ) → SlabPool
place_pages pool memory pages page_num =
    let start = align_page (pages + page_num * page_struct) in
    let count = page_count pool.end start page_num in
    let first : Page = record {
      slab = if is_positive (too_many pool.end start page_num) then pages else page_num;
      next = pool.free_at;
      prev = pool.free_at;
    } in
    let free : Page = record { slab = 0; next = pages; prev = 0 } in
    record pool {
      memory = write (write memory pool.free_at free) pages first;
      pages = pages;
      start = start;
      last = pages + count * page_struct;
      pfree = count;
    }

-- sgx_slab_init, with the number of slots
abbrev pub init_areas : SlabPool → ℕ → SlabPool
init_areas pool n =
    let slots = slab_slots pool in
    let status = slots + n * page_struct in
    let pages = status + n * page_struct in
    let size = minus (minus pool.end slots) (n * (page_struct + page_struct)) in
    place_pages (record pool { min_size = 2 ^ pool.min_shift; status = status })
      (init_slots slots 0 n pool.memory) pages (size / (pagesize + page_struct))

-- sgx_slab_init
unfoldable pub slab_init : SlabPool → SlabPool
slab_init pool = init_areas pool (minus pagesize_shift pool.min_shift)

-- where sgx_slab_alloc_locked goes for a request: to sgx_slab_alloc_pages, or to a slot
pub data Choice : Type 0 where
  whole_pages : ℕ → Choice
  slot : (shift slot_id : ℕ) → Choice

-- `while(s) { shift ++; s >>= 1; }`, on fuel: how often shift grows
unfoldable pub bit_length : ℕ → ℕ → Run ℕ
bit_length zero s = out_of_fuel
bit_length (suc fuel) s =
    let later = (bit_length fuel (s / 2) >>= λ k. ok (suc k)) in if s == 0 then ok 0 else later

-- the beginning of sgx_slab_alloc_locked; a size has 64 bits
unfoldable pub choose : Sizes → SlabPool → ℕ → Run Choice
choose sizes pool size =
    let rounded = size / pagesize + (if size % pagesize == 0 then 0 else 1) in
    let small =
      (bit_length 65 (size - 1) >>= λ k. ok (slot (suc k) (minus (suc k) pool.min_shift))) in
    if ltb sizes.max_size size
    then ok (whole_pages rounded)
    else if ltb pool.min_size size
    then small
    else ok (slot pool.min_shift 0)
