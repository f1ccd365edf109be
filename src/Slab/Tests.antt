-- ===== src/Slab/Tests.antt =====
-- A pool of 64 KB with slots from 8 bytes on, a page of two words, and the theorems at them.
use sginx.Base.{ℕ, ◌+◌, ◌*◌, ◌<◌, ◌≡◌, ◌≢◌, refl, Bool, true, false, not, ◌&&◌, ◌==◌, arith}
use sginx.Base.Run.{out_of_fuel, ok, Returns}
use sginx.Slab.{
  SlabPool, Sizes, slot, sizes_init, halvings, slab_init, slab_slots, choose, bit_length,
}
use sginx.Slab.Layout.{IsLaidOut, AllEmpty, slab_init-IsLaidOut}
use sginx.Slab.Chunks.{IsFull, Takes, take_chunk, take_chunk_exact}
use sginx.Slab.Slots.{AreSizes}

abbrev pool : SlabPool
pool = record {
  self = 65536;
  header = 200;
  free_at = 65560;
  memory = λ a. record { slab = 7; next = 7; prev = 7 };
  min_size = 8;
  min_shift = 3;
  end = 131072;
  status = 0;
  pages = 0;
  start = 0;
  last = 0;
  pfree = 0;
}

abbrev sizes : Sizes
sizes = record { max_size = 2048; exact_size = 64; exact_shift = 6 }

sizes_test : sizes_init ≡ ok sizes
unfolding sizes_init halvings
sizes_test = refl

pages_test : (slab_init pool).pfree ≡ 15
unfolding slab_init
pages_test = refl

-- 100 bytes go to slots of 256 bytes
slot_test : choose sizes pool 100 ≡ ok (slot 8 5)
unfolding choose bit_length
slot_test = refl

slab_init-IsLaidOut_example :
    IsLaidOut (slab_init pool) (slab_slots pool + 9 * 48) × AllEmpty (slab_init pool) 9
slab_init-IsLaidOut_example =
    slab_init-IsLaidOut pool (omega arith) (omega arith) (omega arith) (omega arith)

pool-AreSizes : AreSizes sizes pool
pool-AreSizes = record { max_size = refl; min_size = refl; min_shift = omega arith }

-- two words, with the bit 3 of the first one free
abbrev two_words : ℕ → ℕ → Bool
two_words i k = not (i == 0 && k == 3)

take_chunk_exact_example :
    ((b : ℕ)
      → b < 64
      → b ≢ 3
      → two_words 0 b ≡ false
      → Returns (Takes two_words 0 3 true) (take_chunk 9 2 2 0 two_words))
    × ((b : ℕ)
        → ((b : ℕ) → b < 64 → b ≢ 3 → two_words 0 b ≡ true)
        → 1 < 2
        → b < 64
        → two_words 1 b ≡ false
        → Returns (Takes two_words 0 3 true) (take_chunk 10 2 2 0 two_words))
    × (((b : ℕ) → b < 64 → b ≢ 3 → two_words 0 b ≡ true)
        → ◌≡◌ {A = ℕ} 1 2
        → Returns (Takes two_words 0 3 false) (take_chunk 10 2 2 0 two_words))
    × (((b : ℕ) → b < 64 → b ≢ 3 → two_words 0 b ≡ true)
        → 1 < 2
        → IsFull (two_words 1)
        → take_chunk 9 2 2 0 two_words ≡ out_of_fuel)
take_chunk_exact_example =
    take_chunk_exact 9 2 0 3 two_words (omega arith) (omega arith) (λ j lt. absurd (omega arith))
      (λ b lt. ground arith) refl
