-- ===== src/Palloc/Linked.antt =====
-- The block that a pool allocates from stays one of its blocks, in the allocations of
-- src/core/sgx_palloc.c.
use sginx.Base.{
  ℕ, ◌+◌, ◌%◌, ◌^◌, ◌≡◌, ◌⊎◌, sym, refl, Bool, true, false, Option, none, some, List, [], ◌∷◌, ◌++◌,
  arith, ltb, leb, Bool-cases, Option-cases, inl, inr, write, ◌==◌, if◌then◌else◌, subst,
}
use sginx.Base.Run.{Returns, returns, Returns-bind, Returns-map}
use sginx.Palloc.{
  Pool, Data, Answers, palloc_small, palloc_block, append_block, find_room, count_failures,
  small_begin, new_data, since, blocks,
}
use sginx.Palloc.Alloc.{palloc, palloc_large, keep_large, add_large, large_size, reuse}

abbrev Among : ℕ → List ℕ → Type 0
Among a [] = ⊥
Among a (b ∷ more) = (b ≡ a) ⊎ Among a more

Among-append : (a : ℕ) (xs ys : List ℕ) → Among a xs → Among a (xs ++ ys)
Among-append a [] ys h = absurd h
Among-append a (x ∷ xs) ys (inl e) = inl e
Among-append a (x ∷ xs) ys (inr h) = inr (Among-append a xs ys h)

-- the blocks from one of them on
since_lem :
    (a : ℕ) (all : List ℕ)
    → Among a all
    → (rest : List ℕ) × (since a all ≡ a ∷ rest) × ((x : ℕ) → Among x rest → Among x all)
since_lem a [] h = absurd h
since_lem a (b ∷ more) h = elim (Bool-cases (b == a)) [
  | inl e ↦ (more, ground arith, λ x h. inr h)
  | inr e ↦
      let (rest, from, back) =
        since_lem a more (elim h [ inl e' ↦ absurd (ground arith) | inr h' ↦ h' ]) in
      (rest, rw e from, λ x h. inr (back x h))
]

turned :
    (b : Bool) (r current next : ℕ) (rest : List ℕ)
    → (r ≡ (if b then next else current)) ⊎ Among r rest
    → (r ≡ current) ⊎ Among r (next ∷ rest)
turned true r current next rest (inl e) = inr (inl (sym e))
turned false r current next rest (inl e) = inl e
turned b r current next rest (inr h) = inr (inr h)

count-current :
    (data_at : ℕ → Data) (current now : ℕ) (rest : List ℕ)
    → ((count_failures data_at current now rest).1 ≡ current)
      ⊎ Among (count_failures data_at current now rest).1 rest
unfolding count_failures
count-current data_at current now [] = inl refl
count-current data_at current now (next ∷ rest) =
    let d = data_at now in
    let failed = (d.failed + 1) % 2 ^ 64 in
    turned (ltb 4 failed) _ current next rest (
      count-current (write data_at now (record d { failed = failed }))
        (if ltb 4 failed then next else current) next rest)

abbrev pub IsLinked : Pool → Type 0
IsLinked pool = Among pool.current (blocks pool)

-- what an allocation from the blocks leaves
abbrev pub IsNext : Pool → Pool → Type 0
IsNext pool pool' = IsLinked pool' × (pool'.large ≡ pool.large) × (pool'.calls ≡ pool.calls)

append_block-IsNext :
    (pool : Pool) (size m : ℕ)
    → IsLinked pool
    → Returns
        (λ (p, pool'). IsNext pool pool')
        (append_block pool size m (since pool.current (blocks pool)))
append_block-IsNext pool size m v =
    let (rest, from, back) = since_lem pool.current (blocks pool) v in
    let after =
      count_failures (write pool.data_at m (new_data m size)) pool.current pool.current rest in
    let among : Among after.1 (blocks pool) =
      elim (count-current (write pool.data_at m (new_data m size)) pool.current pool.current rest) [
        | inl e ↦ subst (λ c. Among c (blocks pool)) (sym e) v
        | inr h ↦ back _ h
      ] in
    rw from (returns (Among-append _ (blocks pool) (m ∷ []) among, refl, refl))

palloc_block-IsNext :
    (pool : Pool) (size : ℕ) (memalign : Option ℕ)
    → IsLinked pool
    → Returns (λ (p, pool'). IsNext pool pool') (palloc_block pool size memalign)
unfolding palloc_block
palloc_block-IsNext pool size none v = returns (v, refl, refl)
palloc_block-IsNext pool size (some m) v = append_block-IsNext pool size m v

pub palloc_small-IsNext :
    (pool : Pool) (size : ℕ) (align : Bool) (memalign : Option ℕ)
    → IsLinked pool
    → Returns (λ (p, pool'). IsNext pool pool') (palloc_small pool size align memalign)
unfolding palloc_small
palloc_small-IsNext pool size align memalign v =
    elim (Option-cases
      (find_room pool.data_at (small_begin pool align) size (since pool.current (blocks pool)))) [
        | inl e ↦ rw (palloc_small, e) (palloc_block-IsNext pool size memalign v)
        | inr (now, e) ↦ rw (palloc_small, e) (returns (v, refl, refl))
      ]

pub palloc_small-IsLinked :
    (pool : Pool) (size : ℕ) (align : Bool) (memalign : Option ℕ)
    → IsLinked pool
    → Returns (λ (p, pool'). IsLinked pool') (palloc_small pool size align memalign)
palloc_small-IsLinked pool size align memalign v =
    Returns-map (palloc_small-IsNext pool size align memalign v) (λ (p, pool') next. next.0)

pub add_large-IsLinked :
    (now : ℕ) (kept : Option ℕ × Pool) → IsLinked kept.1 → IsLinked (add_large now kept).1
unfolding add_large
add_large-IsLinked now (none, pool) v = v
add_large-IsLinked now (some at, pool) v = v

pub keep_large-IsLinked :
    (pool : Pool) (now : ℕ) (memalign : Option ℕ)
    → IsLinked pool
    → Returns (λ (p, pool'). IsLinked pool') (keep_large pool now memalign)
unfolding keep_large
keep_large-IsLinked pool now memalign v = elim (Option-cases (reuse now 0 pool.large)) [
  | inl e ↦
      rw (keep_large, e)
        (Returns-bind (palloc_small-IsLinked pool large_size true memalign v)
          (λ kept fine. returns (add_large-IsLinked now kept fine)))
  | inr (large, e) ↦ rw (keep_large, e) (returns v)
]

pub palloc-IsLinked :
    (pool : Pool) (size : ℕ) (align : Bool) (answers : Answers)
    → IsLinked pool
    → Returns (λ (p, pool'). IsLinked pool') (palloc pool size align answers)
unfolding palloc palloc_large
palloc-IsLinked pool size align answers v = elim (Bool-cases (leb size pool.max_size)) [
  | inl e ↦ rw (palloc, e) (palloc_small-IsLinked pool size align answers.memalign v)
  | inr e ↦ elim (Option-cases answers.alloc) [
    | inl e' ↦ rw (palloc, e, palloc_large, e') (returns v)
    | inr (now, e') ↦
        rw (palloc, e, palloc_large, e') (keep_large-IsLinked pool now answers.memalign v)
  ]
]
