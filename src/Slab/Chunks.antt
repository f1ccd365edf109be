-- ===== src/Slab/Chunks.antt =====
-- The search for a free chunk in sgx_slab_alloc_locked of src/core/sgx_slab.c, for chunks that are
-- smaller than the exact size. A word of the bitmap is the function from its 64 bits; the address `p`
-- of the chunk, the counters and the links of the page's list are left out.
use sginx.Base.{
  ℕ, zero, suc, ◌+◌, ◌≤◌, ◌<◌, ◌≡◌, ◌≢◌, ◌⊎◌, inl, inr, refl, ◌∙◌, ap, Bool, true, false, ◌&&◌,
  Option, none, some, ltb, ◌==◌, if◌then◌else◌, arith, Bool-cases,
}
use sginx.Base.Run.{Run, ok, out_of_fuel, ◌>>=◌, Returns, with_value}

-- `for(j = 1, k = 0; j; j <<= 1, k ++)`: the first bit that is not set
unfoldable pub first_free : (left k : ℕ) → (ℕ → Bool) → Option ℕ
first_free zero k word = none
first_free (suc left) k word =
    let later = first_free left (suc k) word in if word k then later else some k

abbrev pub all_set : ℕ → (ℕ → Bool) → Bool
all_set zero word = true
all_set (suc n) word = word n && all_set n word

-- the word is SGX_SLAB_BUSY
unfoldable pub is_busy : (ℕ → Bool) → Bool
is_busy word = all_set 64 word

-- `bitmap[i] |= j`
abbrev pub set_bit : (ℕ → ℕ → Bool) → ℕ → ℕ → ℕ → ℕ → Bool
set_bit bitmap i k a b = if a == i && b == k then true else bitmap a b

-- a chunk that is taken: its word and bit, the bitmap, and whether the page stays in its list
pub record Taken : Type 0 where
  pub word : ℕ
  pub bit : ℕ
  pub bitmap : ℕ → ℕ → Bool
  pub linked : Bool

-- `while(i < map)`, on fuel: whether the loop finds a word that is not busy
unfoldable pub look_on : ℕ → (map i : ℕ) → (ℕ → ℕ → Bool) → Run Bool
look_on zero map i bitmap = out_of_fuel
look_on (suc fuel) map i bitmap =
    let later = look_on fuel map i bitmap in
    let round = if is_busy (bitmap i) then later else ok true in
    if ltb i map then round else ok false

abbrev pub taken : (i k : ℕ) → (ℕ → ℕ → Bool) → Bool → Option Taken
taken i k bitmap linked = some (record { word = i; bit = k; bitmap = bitmap; linked = linked })

-- behind the bit that is set
abbrev pub finish_take : ℕ → (map i k : ℕ) → (ℕ → ℕ → Bool) → Run (Option Taken)
finish_take fuel map i k bitmap =
    if is_busy (bitmap i)
    then (look_on fuel map (suc i) bitmap >>= λ linked. ok (taken i k bitmap linked))
    else ok (taken i k bitmap true)

-- the loop over the words of a page, from the word `i` on, while `left` are left
unfoldable pub take_chunk : ℕ → (map left i : ℕ) → (ℕ → ℕ → Bool) → Run (Option Taken)
take_chunk fuel map zero i bitmap = ok none
take_chunk fuel map (suc left) i bitmap =
    let next = take_chunk fuel map left (suc i) bitmap in
    let found = elim (first_free 64 0 (bitmap i)) as (λ o. Run (Option Taken)) [
      | none ↦ next
      | some k ↦ finish_take fuel map i k (set_bit bitmap i k)
    ] in
    if is_busy (bitmap i) then next else found

take_chunk-finish :
    (fuel map left i n k : ℕ) (bitmap : ℕ → ℕ → Bool)
    → i + left ≡ map
    → i ≤ n
    → n < map
    → ((j : ℕ) → j < n → is_busy (bitmap j) ≡ true)
    → is_busy (bitmap n) ≡ false
    → first_free 64 0 (bitmap n) ≡ some k
    → take_chunk fuel map left i bitmap ≡ finish_take fuel map n k (set_bit bitmap n k)
unfolding take_chunk
take_chunk-finish fuel map zero i n k bitmap sum le lt busy free first = absurd (omega arith)
take_chunk-finish fuel map (suc left) i n k bitmap sum le lt busy free first =
    elim (Bool-cases (ltb i n)) [
      | inl e ↦
          let before : i < n = ground arith in
          rw (busy i before) (
            take_chunk-finish fuel map left (suc i) n k bitmap (omega arith) (omega arith) lt busy
              free first)
      | inr e ↦
          let here : i ≡ n = ground arith in
          rw (here, free, first) (ap (λ j. finish_take fuel map j k (set_bit bitmap j k)) here)
    ]

look_on-stuck :
    (fuel map i : ℕ) (bitmap : ℕ → ℕ → Bool)
    → i < map
    → is_busy (bitmap i) ≡ true
    → look_on fuel map i bitmap ≡ out_of_fuel
unfolding look_on
look_on-stuck zero map i bitmap lt busy = refl
look_on-stuck (suc fuel) map i bitmap lt busy =
    let inside : ltb i map ≡ true = ground arith in
    rw (inside, busy) (look_on-stuck fuel map i bitmap lt busy)

all_set-true : (m : ℕ) (word : ℕ → Bool) → ((b : ℕ) → b < m → word b ≡ true) → all_set m word ≡ true
all_set-true zero word set = refl
all_set-true (suc m) word set =
    let here : word m ≡ true = set m (omega arith) in
    rw (here, all_set-true m word (λ b lt. set b (omega arith))) refl

all_set-false : (m : ℕ) (word : ℕ → Bool) (b : ℕ) → b < m → word b ≡ false → all_set m word ≡ false
all_set-false zero word b lt free = absurd (omega arith)
all_set-false (suc m) word b lt free = elim (Bool-cases (b == m)) [
  | inl e ↦
      let here : m ≡ b = ground arith in
      let free' : word m ≡ false = ap word here ∙ free in rw free' refl
  | inr e ↦
      let below : b < m = ground arith in
      let rest = all_set-false m word b below free in ground (arith, rest)
]

first_free-lowest :
    (left i k : ℕ) (word : ℕ → Bool)
    → i ≤ k
    → k < i + left
    → ((b : ℕ) → b < k → word b ≡ true)
    → word k ≡ false
    → first_free left i word ≡ some k
unfolding first_free
first_free-lowest zero i k word le lt set free = absurd (omega arith)
first_free-lowest (suc left) i k word le lt set free = elim (Bool-cases (ltb i k)) [
  | inl e ↦
      let before : i < k = ground arith in
      rw (set i before, first_free-lowest left (suc i) k word (omega arith) (omega arith) set free)
        refl
  | inr e ↦
      let here : i ≡ k = ground arith in
      let free' : word i ≡ false = ap word here ∙ free in rw free' (ap (λ j. some j) here)
]

-- all chunks of a word are taken
abbrev pub IsFull : (ℕ → Bool) → Type 0
IsFull word = (b : ℕ) → b < 64 → word b ≡ true

-- the chunk of the bit k of the word n is taken, and no other chunk is
pub record IsTaken (bitmap : ℕ → ℕ → Bool) (n k : ℕ) (linked : Bool) (t : Taken) : Type 0 where
  pub word : t.word ≡ n
  pub bit : t.bit ≡ k
  pub now_set : t.bitmap n k ≡ true
  pub others : (i j : ℕ) → (i ≢ n) ⊎ (j ≢ k) → t.bitmap i j ≡ bitmap i j
  pub in_list : t.linked ≡ linked

abbrev pub Takes : (ℕ → ℕ → Bool) → (n k : ℕ) → (linked : Bool) → Option Taken → Type 0
Takes bitmap n k linked o = (t : Taken) × (o ≡ some t) × IsTaken bitmap n k linked t

set_bit-others :
    (bitmap : ℕ → ℕ → Bool) (n k i j : ℕ) → (i ≢ n) ⊎ (j ≢ k) → set_bit bitmap n k i j ≡ bitmap i j
set_bit-others bitmap n k i j (inl other) = ground (arith, other)
set_bit-others bitmap n k i j (inr other) = ground (arith, other)

set_bit-here : (bitmap : ℕ → ℕ → Bool) (n k : ℕ) → set_bit bitmap n k n k ≡ true
set_bit-here bitmap n k = ground arith

taken-Takes :
    (bitmap : ℕ → ℕ → Bool) (n k : ℕ) (linked : Bool) (call : Run (Option Taken))
    → call ≡ ok (taken n k (set_bit bitmap n k) linked)
    → Returns (Takes bitmap n k linked) call
taken-Takes bitmap n k linked call e = with_value _ e (
  _,
  refl,
  record {
    word = refl;
    bit = refl;
    now_set = set_bit-here bitmap n k;
    others = set_bit-others bitmap n k;
    in_list = refl;
  },
)

-- the word n is busy once its last free bit is set
filled-IsFull :
    (bitmap : ℕ → ℕ → Bool) (n k : ℕ)
    → ((b : ℕ) → b < 64 → b ≢ k → bitmap n b ≡ true)
    → IsFull (set_bit bitmap n k n)
filled-IsFull bitmap n k set b lt = elim (Bool-cases (b == k)) [
  | inl e ↦ ground (arith, e)
  | inr e ↦
      let other : b ≢ k = ground arith in set_bit-others bitmap n k n b (inr other) ∙ set b lt other
]

-- A page has `map` words of 64 bits. In the words before the word n all bits are set, and so are those
-- before the bit k of the word n; that bit is not set. Then this bit is set, and all other bits of the
-- page stay as they are. If another bit of the word n was free, the page stays in its list. If none
-- was, it also stays when the next word has a free bit, it leaves its list when the word n is the
-- last, and when all bits of the next word are set, no number of rounds is enough.
pub take_chunk_exact :
    (fuel map n k : ℕ) (bitmap : ℕ → ℕ → Bool)
    → n < map
    → k < 64
    → ((j : ℕ) → j < n → IsFull (bitmap j))
    → ((b : ℕ) → b < k → bitmap n b ≡ true)
    → bitmap n k ≡ false
    → ((b : ℕ)
        → b < 64
        → b ≢ k
        → bitmap n b ≡ false
        → Returns (Takes bitmap n k true) (take_chunk fuel map map 0 bitmap))
      × ((b : ℕ)
          → ((b : ℕ) → b < 64 → b ≢ k → bitmap n b ≡ true)
          → suc n < map
          → b < 64
          → bitmap (suc n) b ≡ false
          → Returns (Takes bitmap n k true) (take_chunk (suc fuel) map map 0 bitmap))
      × (((b : ℕ) → b < 64 → b ≢ k → bitmap n b ≡ true)
          → suc n ≡ map
          → Returns (Takes bitmap n k false) (take_chunk (suc fuel) map map 0 bitmap))
      × (((b : ℕ) → b < 64 → b ≢ k → bitmap n b ≡ true)
          → suc n < map
          → IsFull (bitmap (suc n))
          → take_chunk fuel map map 0 bitmap ≡ out_of_fuel)
unfolding look_on is_busy
take_chunk_exact fuel map n k bitmap lt small busy set free =
    let after = set_bit bitmap n k in
    let next_word = λ (b : ℕ).
      let other : suc n ≢ n = omega arith in set_bit-others bitmap n k (suc n) b (inl other) in
    let full = λ (rest : (b : ℕ) → b < 64 → b ≢ k → bitmap n b ≡ true).
      all_set-true 64 (after n) (filled-IsFull bitmap n k rest) in
    let found = λ (f : ℕ).
      take_chunk-finish f map map 0 n k bitmap (omega arith) (omega arith) lt
        (λ j before. all_set-true 64 (bitmap j) (busy j before))
        (all_set-false 64 (bitmap n) k small free)
        (first_free-lowest 64 0 k (bitmap n) (omega arith) (omega arith) set free) in
    (
      (λ b lt' other free'.
          let open_word =
            all_set-false 64 (after n) b lt' (set_bit-others bitmap n k n b (inr other) ∙ free') in
          taken-Takes bitmap n k true _ (found fuel ∙ rw open_word refl)),
      (λ b rest more lt' free'.
          let inside : ltb (suc n) map ≡ true = ground arith in
          let open_word = all_set-false 64 (after (suc n)) b lt' (next_word b ∙ free') in
          taken-Takes bitmap n k true _
            (found (suc fuel) ∙ rw (full rest, inside, open_word) refl)),
      (λ rest last.
          let outside : ltb (suc n) map ≡ false = ground arith in
          taken-Takes bitmap n k false _ (found (suc fuel) ∙ rw (full rest, outside) refl)),
      (λ rest more next.
          let stuck =
            look_on-stuck fuel map (suc n) after more
              (all_set-true 64 (after (suc n)) (λ b lt'. next_word b ∙ next b lt')) in
          found fuel ∙ rw (full rest, stuck) refl),
    )
