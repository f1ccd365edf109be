-- ===== src/Slab/Layout.antt =====
-- The areas that sgx_slab_init of src/core/sgx_slab.c lays out.
use sginx.Base.{
  ℕ, zero, suc, ◌+◌, ◌-◌, ◌*◌, ◌/◌, ◌%◌, ◌^◌, ◌≤◌, ◌<◌, ◌≡◌, ◌≢◌, ◌⊎◌, ◌∙◌, inl, inr, refl, subst,
  Bool, true, false, ltb, if◌then◌else◌, write, minus, arith, Bool-cases,
}
use sginx.Slab.{
  Page, SlabPool, page_struct, slab_slots, slot_at, init_slots, align_page, is_positive,
  place_pages, slab_init, init_areas, too_many, page_count, pagesize, pagesize_shift,
}

-- the page structs and the pages, which begin at a multiple of 4096, lie behind each other in the pool
pub record IsLaidOut (pool : SlabPool) (pages : ℕ) : Type 0 where
  pub at_pages : pool.pages ≡ pages
  pub structs : pool.last ≡ pages + pool.pfree * page_struct
  pub structs_first : pool.last ≤ pool.start
  pub aligned : pool.start % 4096 ≡ 0
  pub inside : (pool.pfree ≡ 0) ⊎ (pool.start + pool.pfree * 4096 ≤ pool.end)

not_positive : (m : ℕ) → (m ≡ 0) ⊎ (2 ^ 63 ≤ m) → is_positive m ≡ false
not_positive m (inl e) = ground (arith, e)
not_positive m (inr le) = ground (arith, le)

fewer : (b : Bool) (n m : ℕ) → (if b then n - m else n) ≤ n
fewer true n m = omega arith
fewer false n m = omega arith

page_count_fits :
    (end start page_num : ℕ)
    → end < 2 ^ 63
    → page_num < 2 ^ 63
    → start ≤ end
    → start + page_count end start page_num * 4096 ≤ end
page_count_fits end start page_num small few le =
    let q = (end - start) / 4096 in
    let room : minus end start / pagesize ≡ q = omega arith in
    elim (Bool-cases (ltb q page_num)) [
      | inl e ↦
          let lt : q < page_num = ground arith in
          let m : too_many end start page_num ≡ page_num - q = omega (arith, room) in
          let positive : is_positive (too_many end start page_num) ≡ true = ground (arith, m) in
          rw positive (omega (arith, m))
      | inr e ↦
          let ge : page_num ≤ q = ground arith in
          let m : (too_many end start page_num ≡ 0) ⊎ (2 ^ 63 ≤ too_many end start page_num) =
            elim (Bool-cases (ltb page_num q)) [
              | inl e' ↦ let lt : page_num < q = ground arith in inr (omega (arith, room))
              | inr e' ↦ let same : page_num ≡ q = ground arith in inl (omega (arith, room))
            ] in
          let negative = not_positive (too_many end start page_num) m in rw negative (omega arith)
    ]

structs_fit :
    (pages page_num count : ℕ)
    → count ≤ page_num
    → pages + count * page_struct ≤ align_page (pages + page_num * page_struct)
structs_fit pages page_num count le = omega arith

align_page-even : (p : ℕ) → align_page p % 4096 ≡ 0
align_page-even p = omega arith

place_pages-IsLaidOut :
    (pool : SlabPool) (memory : ℕ → Page) (pages page_num : ℕ)
    → pool.end < 2 ^ 63
    → pages + page_num * 4120 ≤ pool.end
    → IsLaidOut (place_pages pool memory pages page_num) pages
place_pages-IsLaidOut pool memory pages page_num small fits =
    let start = align_page (pages + page_num * page_struct) in
    let few : page_count pool.end start page_num ≤ page_num =
      fewer (is_positive (too_many pool.end start page_num)) page_num _ in
    record {
      at_pages = refl;
      structs = refl;
      structs_first = structs_fit pages page_num (page_count pool.end start page_num) few;
      aligned = align_page-even (pages + page_num * page_struct);
      inside = elim (Bool-cases (ltb 0 page_num)) [
        | inl e ↦
            let some_pages : 0 < page_num = ground arith in
            inr (page_count_fits pool.end start page_num small (omega arith) (omega arith))
        | inr e ↦ let no_pages : page_num ≡ 0 = ground arith in inl (omega (arith, few))
      ];
    }

-- a slot without pages
abbrev pub empty_slot : ℕ → Page
empty_slot at = record { slab = 0; next = at; prev = 0 }

init_slots-away :
    (slots i left : ℕ) (memory : ℕ → Page) (a : ℕ)
    → a < slot_at slots i
    → init_slots slots i left memory a ≡ memory a
unfolding init_slots
init_slots-away slots i zero memory a lt = refl
init_slots-away slots i (suc left) memory a lt =
    let at = slot_at slots i in
    let kept : write memory at (empty_slot at) a ≡ memory a = ground arith in
    init_slots-away slots (suc i) left (write memory at (empty_slot at)) a (omega arith) ∙ kept

init_slots-empty :
    (slots i left : ℕ) (memory : ℕ → Page) (k : ℕ)
    → i ≤ k
    → k < i + left
    → init_slots slots i left memory (slot_at slots k) ≡ empty_slot (slot_at slots k)
unfolding init_slots
init_slots-empty slots i zero memory k from lt = absurd (omega arith)
init_slots-empty slots i (suc left) memory k from lt =
    let at = slot_at slots i in
    elim (Bool-cases (ltb i k)) [
      | inl e ↦
          init_slots-empty slots (suc i) left (write memory at (empty_slot at)) k (ground arith)
            (omega arith)
      | inr e ↦
          let same : k ≡ i = ground arith in
          init_slots-away slots (suc i) left (write memory at (empty_slot at)) (slot_at slots k)
            (omega arith)
          ∙ ground (arith, same)
    ]

-- every slot is without pages
abbrev pub AllEmpty : SlabPool → ℕ → Type 0
AllEmpty pool n =
    let slots = slab_slots pool in
    (i : ℕ) → i < n → pool.memory (slot_at slots i) ≡ empty_slot (slot_at slots i)

written_elsewhere :
    (memory : ℕ → Page) (p q a : ℕ) (x y : Page)
    → a ≢ p
    → a ≢ q
    → write (write memory p x) q y a ≡ memory a
written_elsewhere memory p q a x y np nq = ground (arith, np, nq)

init_areas-IsLaidOut :
    (pool : SlabPool) (n : ℕ)
    → pool.end < 2 ^ 63
    → slab_slots pool + n * 48 ≤ pool.end
    → pool.free_at < slab_slots pool
    → IsLaidOut (init_areas pool n) (slab_slots pool + n * page_struct + n * page_struct)
      × AllEmpty (init_areas pool n) n
init_areas-IsLaidOut pool n small fits free_first =
    let slots = slab_slots pool in
    let pages = slots + n * page_struct + n * page_struct in
    let size : minus (minus pool.end slots) (n * 48) ≡ pool.end - slots - n * 48 = omega arith in
    let page_num = minus (minus pool.end slots) (n * 48) / 4120 in
    let with_status : SlabPool = record pool {
      min_size = 2 ^ pool.min_shift;
      status = slots + n * page_struct;
    } in
    let room : pages + page_num * 4120 ≤ pool.end = omega (arith, size) in
    (
      place_pages-IsLaidOut with_status (init_slots slots 0 n pool.memory) pages page_num small
          room,
      λ i lt.
          written_elsewhere (init_slots slots 0 n pool.memory) pool.free_at pages (slot_at slots i)
            _ _ (λ e. omega arith) (λ e. omega arith)
          ∙ init_slots-empty slots 0 n pool.memory i (omega arith) (omega arith),
    )

-- On a pool whose memory holds its header, the slots and their status, with `free` in the header and
-- slots of 2^min_shift to 2048 bytes, sgx_slab_init lays the structs of the pages behind the status and
-- the pages behind the structs, at a multiple of 4096, and as many pages as it counts lie in the pool.
-- Every slot is without pages.
pub slab_init-IsLaidOut :
    (pool : SlabPool)
    → pool.min_shift ≤ 12
    → pool.end < 2 ^ 63
    → slab_slots pool + (12 - pool.min_shift) * 48 ≤ pool.end
    → pool.free_at < slab_slots pool
    → IsLaidOut (slab_init pool) (slab_slots pool + (12 - pool.min_shift) * 48)
      × AllEmpty (slab_init pool) (12 - pool.min_shift)
unfolding slab_init
slab_init-IsLaidOut pool small_shift small fits free_first =
    let n : minus pagesize_shift pool.min_shift ≡ 12 - pool.min_shift = omega arith in
    let pages : slab_slots pool
          + (12 - pool.min_shift) * page_struct
          + (12 - pool.min_shift) * page_struct
        ≡ slab_slots pool + (12 - pool.min_shift) * 48 =
      omega arith in
    let (laid, empty) = init_areas-IsLaidOut pool (12 - pool.min_shift) small fits free_first in
    rw n (subst (IsLaidOut (init_areas pool (12 - pool.min_shift))) pages laid, empty)
