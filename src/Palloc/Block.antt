-- ===== src/Palloc/Block.antt =====
-- sgx_palloc_block of src/core/sgx_palloc.c, and sgx_palloc_small once the pool has a second block.
use sginx.Base.{
  ℕ, ◌+◌, ◌-◌, ◌%◌, ◌^◌, ◌≤◌, ◌<◌, ◌≡◌, ◌≢◌, ◌⊎◌, refl, Bool, true, false, Option, some, [], ◌∷◌,
  arith, minus, leb, inl, inr, write, ap, if◌then◌else◌,
}
use sginx.Base.Run.{ok, Returns, returns, Returns-map, ◌>>=◌}
use sginx.Palloc.{
  Pool, Data, Answers, palloc_small, palloc_block, find_room, count_failures, small_begin,
  align_ptr, new_data, data_header, since, blocks,
}
use sginx.Palloc.Alloc.{palloc}
use sginx.Palloc.Carve.{small_begin_bounds}

-- a pool of one block, within the addresses, that is larger than what is taken from it and whose end
-- is aligned
pub record IsSingle (pool : Pool) : Type 0 where
  pub alone : pool.more ≡ []
  pub own : pool.current ≡ pool.self
  pub most : pool.self + pool.max_size < (pool.data_at pool.self).end
  pub behind : pool.self ≤ (pool.data_at pool.self).begin
  pub ordered : (pool.data_at pool.self).begin ≤ (pool.data_at pool.self).end
  pub even : (pool.data_at pool.self).end % 8 ≡ 0
  pub small : (pool.data_at pool.self).end < 2 ^ 64

small_begin_end :
    (pool : Pool) (align : Bool)
    → IsSingle pool
    → small_begin pool align ≤ (pool.data_at pool.self).end
small_begin_end pool true v = omega (arith, v.ordered, v.even)
small_begin_end pool false v = v.ordered

-- a single block without room: the new block is linked behind it
abbrev pub grown : Pool → ℕ → ℕ → Pool
grown pool size m = record pool { data_at = write pool.data_at m (new_data m size); more = m ∷ [] }

small_full :
    (pool : Pool) (size m : ℕ) (align : Bool)
    → IsSingle pool
    → (pool.data_at pool.self).end < small_begin pool align + size
    → palloc_small pool size align (some m)
      ≡ ok (some (align_ptr (m + data_header)), grown pool size m)
unfolding palloc_small find_room palloc_block count_failures
small_full pool size m align v full =
    let end = small_begin_end pool align v in
    let far : leb size (minus (pool.data_at pool.self).end (small_begin pool align)) ≡ false =
      ground (arith, v.small) in
    let whole : since pool.current (blocks pool) ≡ pool.self ∷ [] =
      ground (arith, v.own, v.alone) in
    rw (palloc_small, whole, find_room, far, palloc_block, whole, v.alone, count_failures) refl

-- a block of the pool's size that does not overlap the pool's own
abbrev pub IsElsewhere : Pool → ℕ → Type 0
IsElsewhere pool q =
    let end = (pool.data_at pool.self).end in (q + (end - pool.self) ≤ pool.self) ⊎ (end ≤ q)

grown-data :
    (pool : Pool) (size q : ℕ)
    → IsSingle pool
    → IsElsewhere pool q
    → (grown pool size q).data_at pool.self ≡ pool.data_at pool.self
grown-data pool size q v away =
    let apart : q ≢ pool.self =
      λ e. elim away [ inl le ↦ omega (arith, v.most) | inr le ↦ omega (arith, v.most) ] in
    ground (arith, apart)

grown_find :
    (pool : Pool) (size q : ℕ) (align : Bool)
    → IsSingle pool
    → (pool.data_at pool.self).end < small_begin pool align + size
    → IsElsewhere pool q
    → size ≤ pool.max_size
    → q + size < 2 ^ 64
    → find_room (grown pool size q).data_at (small_begin pool align) size (pool.self ∷ q ∷ [])
      ≡ some q
unfolding find_room
grown_find pool size q align v full away most small =
    let end = small_begin_end pool align v in
    let kept = grown-data pool size q v away in
    let fresh : (grown pool size q).data_at q ≡ new_data q size = ground arith in
    let far : leb size (minus (pool.data_at pool.self).end (small_begin pool align)) ≡ false =
      ground (arith, v.small) in
    let near : leb size (minus (q + size) (small_begin pool align)) ≡ true = elim away [
      | inl le ↦
          let low = (small_begin_bounds pool align).0 in
          ground (arith, v.most, v.behind, v.small, low, end)
      | inr le ↦ ground (arith, end)
    ] in
    rw (find_room, kept, far, find_room, fresh, near) refl

small_second :
    (pool : Pool) (size q : ℕ) (align : Bool) (memalign : Option ℕ)
    → IsSingle pool
    → size ≤ pool.max_size
    → (pool.data_at pool.self).end < small_begin pool align + size
    → IsElsewhere pool q
    → q + size < 2 ^ 64
    → Returns
        (λ (p, pool'). p ≡ some (small_begin pool align))
        (palloc_small (grown pool size q) size align memalign)
unfolding palloc_small
small_second pool size q align memalign v most full away small =
    let grew = grown pool size q in
    let begin : small_begin grew align ≡ small_begin pool align =
      ap (λ (d : Data). if align then align_ptr d.begin else d.begin)
        (grown-data pool size q v away) in
    let whole : since pool.current (blocks grew) ≡ pool.self ∷ q ∷ [] = ground (arith, v.own) in
    let found = grown_find pool size q align v full away most small in
    rw (palloc_small, whole, begin, found) (returns (ap some begin))

-- A pool has one block and lacks the room for a request of at most `max_size` bytes, for which
-- sgx_memalign then gives a block elsewhere. The next request of the same size and kind is answered,
-- whatever the system answers, with memory that begins in the pool's first block and goes past that
-- block's end.
pub palloc_overruns :
    (pool : Pool) (size q : ℕ) (align : Bool) (alloc : Option ℕ) (later : Answers)
    → IsSingle pool
    → size ≤ pool.max_size
    → (pool.data_at pool.self).end < small_begin pool align + size
    → IsElsewhere pool q
    → q + size < 2 ^ 64
    → Returns
        (λ (p, pool').
          (m : ℕ) × (p ≡ some m)
          × (m ≤ (pool.data_at pool.self).end)
          × ((pool.data_at pool.self).end < m + size))
        (palloc pool size align (record { alloc = alloc; memalign = some q }) >>= λ (p, pool').
          palloc pool' size align later)
unfolding palloc palloc_small
palloc_overruns pool size q align alloc later v most full away small =
    let fine : leb size pool.max_size ≡ true = ground arith in
    let end = small_begin_end pool align v in
    rw (fine, small_full pool size q align v full, fine)
      (Returns-map (small_second pool size q align later.memalign v most full away small)
        (λ (p, pool') e. (small_begin pool align, e, end, full)))
