-- ===== src/Slab/Slots.antt =====
-- What sgx_slab_alloc_locked of src/core/sgx_slab.c chooses for a request.
use sginx.Base.{
  ℕ, zero, suc, ◌+◌, ◌-◌, ◌*◌, ◌/◌, ◌≤◌, ◌<◌, ◌≡◌, ◌↔◌, inl, inr, refl, ap, true, false, ltb, ◌==◌,
  minus, arith, Bool-cases,
}
use sginx.Base.Run.{ok, Returns, returns, Returns-bind}
use sginx.Slab.{SlabPool, Sizes, Choice, whole_pages, slot, bit_length, choose}

abbrev pub power : ℕ → ℕ
power zero = 1
power (suc k) = 2 * power k

bit_length_lem :
    (fuel s : ℕ)
    → s < power fuel
    → Returns
        (λ k. (s < power k) × (0 < s → power k ≤ 2 * s) × (s ≡ 0 → k ≡ 0))
        (bit_length (suc fuel) s)
unfolding bit_length
bit_length_lem fuel zero lt = returns (omega arith, (λ pos. absurd (omega arith)), λ e. refl)
bit_length_lem zero (suc s) lt = absurd (omega arith)
bit_length_lem (suc fuel) (suc s) lt =
    let n : ℕ = suc s in
    let some_bits : (n == 0) ≡ false = ground arith in
    rw (bit_length, some_bits)
      (Returns-bind (bit_length_lem fuel (n / 2) (omega arith)) (λ k (below, above, none). returns (
        omega arith,
        (λ pos. elim (Bool-cases (ltb 0 (n / 2))) [
          | inl e ↦ let half : 0 < n / 2 = ground arith in omega (arith, above half)
          | inr e ↦ let half : n / 2 ≡ 0 = ground arith in omega (arith, ap power (none half))
        ]),
        (λ e. absurd (omega arith)),
      )))

power_some : (k : ℕ) → 0 < power k
power_some zero = omega arith
power_some (suc k) = omega (arith, power_some k)

power_mono : (i k : ℕ) → i ≤ k → power i ≤ power k
power_mono zero k le = omega (arith, power_some k)
power_mono (suc i) zero le = absurd (omega arith)
power_mono (suc i) (suc k) le = omega (arith, power_mono i k (omega arith))

below_power : (i k : ℕ) → power i < power k → i < k
below_power i k lt = elim (Bool-cases (ltb i k)) [
  | inl e ↦ ground arith
  | inr e ↦ let le : k ≤ i = ground arith in absurd (omega (arith, power_mono k i le))
]

-- the sizes of a page of 4096 bytes, and the smallest slots
pub record AreSizes (sizes : Sizes) (pool : SlabPool) : Type 0 where
  pub max_size : sizes.max_size ≡ 2048
  pub min_size : pool.min_size ≡ power pool.min_shift
  pub min_shift : pool.min_shift ≤ 11

-- a slot for a request between the smallest and the largest
pub record IsSlot (pool : SlabPool) (size : ℕ) (c : Choice) : Type 0 where
  pub k : ℕ
  pub chosen : c ≡ slot (suc k) (suc k - pool.min_shift)
  pub holds : size ≤ power k
  pub tight : power k < 2 * size
  pub in_range : (suc k - pool.min_shift < 12 - pool.min_shift) ↔ (size ≤ 1024)

bits-IsSlot :
    (pool : SlabPool) (size k : ℕ)
    → pool.min_shift ≤ 11
    → power pool.min_shift < size
    → size ≤ 2048
    → size - 1 < power k
    → (0 < size - 1 → power k ≤ 2 * (size - 1))
    → IsSlot pool size (slot (suc k) (minus (suc k) pool.min_shift))
bits-IsSlot pool size k few large small below above =
    let some_size = power_some pool.min_shift in
    let tight : power k ≤ 2 * (size - 1) = above (omega arith) in
    let low : pool.min_shift < k = below_power pool.min_shift k (omega arith) in
    let high : k < 12 = below_power k 12 (omega arith) in
    let id : minus (suc k) pool.min_shift ≡ suc k - pool.min_shift = omega arith in
    record {
      k = k;
      chosen = ap (slot (suc k)) id;
      holds = omega arith;
      tight = omega arith;
      in_range = (
        (λ lt. let le = power_mono k 10 (omega arith) in omega arith),
        (λ le. let lt = below_power k 11 (omega arith) in omega arith),
      );
    }

-- With pages of 4096 bytes: a request of more than 2048 bytes is for as few whole pages as hold it. One
-- of at most the smallest slot's size goes to the slot 0. Another one goes to slots of 2 * 2^k bytes,
-- where 2^k is the least power that holds it, and their index is in the array of 12 - min_shift
-- slots exactly when the request is for at most 1024 bytes.
choose_exact :
    (sizes : Sizes) (pool : SlabPool) (size : ℕ)
    → AreSizes sizes pool
    → (2048 < size
        → Returns
            (λ c. (p : ℕ) × (c ≡ whole_pages p) × (size ≤ p * 4096) × (p * 4096 < size + 4096))
            (choose sizes pool size))
      × (size ≤ pool.min_size → size ≤ 2048 → choose sizes pool size ≡ ok (slot pool.min_shift 0))
      × (pool.min_size < size → size ≤ 2048 → Returns (IsSlot pool size) (choose sizes pool size))
unfolding choose
choose_exact sizes pool size v = (
  (λ more.
      let pages : ltb sizes.max_size size ≡ true = ground (arith, v.max_size) in
      rw pages (returns (_, refl, ground arith, ground arith))),
  (λ le small.
      let slots : ltb sizes.max_size size ≡ false = ground (arith, v.max_size) in
      let least : ltb pool.min_size size ≡ false = ground arith in rw (slots, least) refl),
  (λ more small.
      let slots : ltb sizes.max_size size ≡ false = ground (arith, v.max_size) in
      let larger : ltb pool.min_size size ≡ true = ground arith in
      let big = power_mono 11 64 (omega arith) in
      rw (slots, larger)
        (Returns-bind (bit_length_lem 64 (size - 1) (omega (arith, big))) (λ k (below, above, none).
          returns
            (bits-IsSlot pool size k v.min_shift (omega (arith, v.min_size)) small below above)))),
)
