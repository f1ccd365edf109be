-- ===== src/PriorityQueue/Items.antt =====
-- The items of a queue, counted: two arrays hold the same items in the cells 1 to n when every
-- test counts as many of them in both.
use sginx.Base.{ℕ, zero, suc, ◌+◌, ◌≤◌, ◌<◌, ◌≡◌, refl, Bool, arith, if◌then◌else◌, write}

abbrev pub one_if : Bool → ℕ
one_if b = if b then 1 else 0

module _ {ℓ} {A : Type ℓ} where
  -- how many of the cells 1 to n pass the test
  unfoldable pub count : (A → Bool) → (ℕ → A) → ℕ → ℕ
  count test f zero = 0
  count test f (suc n) = count test f n + one_if (test (f (suc n)))

  abbrev pub SameItems : ℕ → (ℕ → A) → (ℕ → A) → Type ℓ
  SameItems n f g = (test : A → Bool) → count test g n ≡ count test f n

  pub count_congr :
      (test : A → Bool) (f g : ℕ → A) (n : ℕ)
      → ((i : ℕ) → i ≤ n → g i ≡ f i)
      → count test g n ≡ count test f n
  unfolding count
  count_congr test f g zero same = refl
  count_congr test f g (suc n) same =
      rw (count_congr test f g n (λ i h. same i (omega arith)), same (suc n) (omega arith))

  pub count-write_above :
      (test : A → Bool) (f : ℕ → A) (n i : ℕ) (v : A)
      → n < i
      → count test (write f i v) n ≡ count test f n
  count-write_above test f n i v h = count_congr test f (write f i v) n (λ j le. ground arith)

  -- a write trades the old item for the new one
  pub count-write :
      (test : A → Bool) (f : ℕ → A) (n i : ℕ) (v : A)
      → 0 < i
      → i ≤ n
      → count test (write f i v) n + one_if (test (f i)) ≡ count test f n + one_if (test v)
  unfolding count
  count-write test f zero i v pos le = absurd (omega arith)
  count-write test f (suc n) i v pos le =
      ground (arith, count-write test f n i v, count-write_above test f n i v)

  -- a swap of two of the cells keeps the items
  pub swap-SameItems :
      (f : ℕ → A) (n x y : ℕ)
      → 0 < x
      → x ≤ n
      → 0 < y
      → y ≤ n
      → SameItems n f (write (write f x (f y)) y (f x))
  swap-SameItems f n x y px lx py ly test =
      ground (arith, count-write test f n x (f y), count-write test (write f x (f y)) n y (f x))
