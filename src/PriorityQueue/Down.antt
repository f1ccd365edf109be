-- ===== src/PriorityQueue/Down.antt =====
-- priority_queue_down as it is written: it follows the left children only.
use sginx.Base.{
  ℕ, zero, suc, ◌+◌, ◌-◌, ◌*◌, ◌/◌, ◌%◌, ◌^◌, ◌≤◌, ◌<◌, ◌≡◌, ◌≢◌, ◌⊎◌, refl, inl, inr, Bool, false,
  ◌||◌, arith, ltb, leb, Bool-cases, if◌then◌else◌, le→not_ltb,
}
use sginx.Base.Run.{ok, Returns, returns, Returns-map}
use sginx.PriorityQueue.{Queue, word, or_one, compare, down_loop, down}
use sginx.PriorityQueue.Order.{
  Ranking, Moved, Moved-refl, load-ok, swapped, swap-ok, Moved-trans, Moved-swapped,
}

-- every left child is at least its parent
abbrev pub LeftOrder : (ℕ → ℕ) → ℕ → Type 0
LeftOrder key size = (c : ℕ) → 1 < c → c ≤ size → c % 2 ≡ 0 → key (c / 2) ≤ key c

-- the left edges that do not leave `i` are in order, and so is the one past `i`
pub record DownInv (key : ℕ → ℕ) (size i : ℕ) : Type 0 where
  pub edges : (c : ℕ) → 1 < c → c ≤ size → c % 2 ≡ 0 → c / 2 ≢ i → key (c / 2) ≤ key c
  pub bridged : 2 * i ≤ size → 1 < i → i % 2 ≡ 0 → key (i / 2) ≤ key (2 * i)

-- the room that the sift needs
pub record Fits {ℓ} {A : Type ℓ} (q : Queue A) : Type 0 where
  pub room : q.size < q.cells
  pub small : q.size < 2 ^ 60

module _ {ℓ} {A : Type ℓ} (cmp : A → A → Bool) where
  compare-ok :
      (q : Queue A) (x y : ℕ)
      → q.size < q.cells
      → compare cmp q x y
        ≡ ok (if ltb q.size x || ltb q.size y then false else cmp (q.node x) (q.node y))
  unfolding compare
  compare-ok q x y room = elim (Bool-cases (ltb q.size x || ltb q.size y)) [
    | inl out ↦ rw out
    | inr inside ↦ rw (inside, load-ok q x (ground arith), load-ok q y (ground arith))
  ]

  compare-inside :
      (q : Queue A) (x y : ℕ)
      → q.size < q.cells
      → x ≤ q.size
      → y ≤ q.size
      → compare cmp q x y ≡ ok (cmp (q.node x) (q.node y))
  unfolding compare
  compare-inside q x y room hx hy = rw (
    le→not_ltb q.size x hx,
    le→not_ltb q.size y hy,
    load-ok q x (omega arith),
    load-ok q y (omega arith),
  )

-- what the sift from cell `i` does: it moves items about, below `i` and along left children only
pub record Sunk {ℓ} {A : Type ℓ} (rank : A → ℕ) (q : Queue A) (i : ℕ) (r : Queue A) : Type ℓ where
  pub moved : Moved q r
  pub order : DownInv (λ j. rank (q.node j)) q.size i → LeftOrder (λ j. rank (r.node j)) r.size
  pub root : (r.node i ≡ q.node i) ⊎ (r.node i ≡ q.node (2 * i))
  pub above : (j : ℕ) → j < i → r.node j ≡ q.node j
  pub odd : (j : ℕ) → j % 2 ≡ 1 → j ≢ i → r.node j ≡ q.node j

module _ {ℓ} {A : Type ℓ} (cmp : A → A → Bool) (ranking : Ranking cmp) where
  open ranking use {rank, agrees}

  -- the sift ends at a node with no smaller left child
  Sunk-rest :
      (q : Queue A) (i : ℕ)
      → (2 * i ≤ q.size → rank (q.node i) ≤ rank (q.node (2 * i)))
      → Sunk rank q i q
  Sunk-rest q i least = record {
    moved = Moved-refl q;
    order = λ v c p le even. ground (arith, v.edges c);
    root = inl refl;
    above = λ j h. refl;
    odd = λ j h ne. refl;
  }

  DownInv-swapped :
      (q : Queue A) (i : ℕ)
      → 0 < i
      → 2 * i ≤ q.size
      → rank (q.node (2 * i)) < rank (q.node i)
      → DownInv (λ j. rank (q.node j)) q.size i
      → DownInv (λ j. rank ((swapped q (2 * i) i).node j)) q.size (2 * i)
  DownInv-swapped q i p inside lower v = record {
    edges = λ c big le even ne. ground (arith, v.edges c, v.bridged);
    bridged = λ le big even. ground (arith, v.edges (2 * (2 * i)));
  }

  Sunk-swapped :
      (q : Queue A) (i : ℕ)
      → 0 < i
      → 2 * i ≤ q.size
      → rank (q.node (2 * i)) < rank (q.node i)
      → (r : Queue A) → Sunk rank (swapped q (2 * i) i) (2 * i) r
      → Sunk rank q i r
  Sunk-swapped q i p inside lower r s = record {
    moved =
        Moved-trans q (swapped q (2 * i) i) r
          (Moved-swapped q (2 * i) i (omega arith) inside p (omega arith)) s.moved;
    order = λ v. s.order (DownInv-swapped q i p inside lower v);
    root = inr (ground (arith, s.above i));
    above = λ j h. ground (arith, s.above j);
    odd = λ j h ne. ground (arith, s.odd j);
  }

  down_loop-Sunk :
      (k : ℕ) (q : Queue A) (i : ℕ)
      → Fits q
      → 0 < i
      → i < 2 ^ 60
      → q.size + 1 - i < k
      → Returns (λ (_, r). Sunk rank q i r) (down_loop cmp k q i)
  unfolding down_loop
  down_loop-Sunk zero q i fits p small f = absurd (omega arith)
  down_loop-Sunk (suc k) q i fits p small f =
      let w : word (2 * i) ≡ 2 * i = omega arith in
      rw w (elim (Bool-cases (leb (2 * i) q.size)) [
        | inl inside ↦
            rw
              (
                inside,
                compare-ok cmp q (or_one (2 * i)) (2 * i) fits.room,
                compare-inside cmp q (2 * i) i fits.room (ground arith) (ground arith),
                agrees,
              )
              (elim (Bool-cases (ltb (rank (q.node (2 * i))) (rank (q.node i)))) [
                | inl lower ↦
                    rw (lower, swap-ok q (2 * i) i (ground arith) (ground arith))
                      (Returns-map
                        (down_loop-Sunk k (swapped q (2 * i) i) (2 * i)
                          (record { room = fits.room; small = fits.small }) (omega arith)
                          (ground arith) (ground arith))
                        λ (_, r) s. Sunk-swapped q i p (ground arith) (ground arith) r s)
                | inr higher ↦ rw higher (returns (Sunk-rest q i (λ le. ground arith)))
              ])
        | inr leaf ↦ rw leaf (returns (Sunk-rest q i (λ le. absurd (ground arith))))
      ])

  -- The sift stays inside the array and ends.
  pub down-Sunk :
      (q : Queue A) (i : ℕ)
      → Fits q
      → 0 < i
      → i < 2 ^ 60
      → Returns (λ (_, r). Sunk rank q i r) (down cmp q i)
  unfolding down
  down-Sunk q i fits p small = down_loop-Sunk (q.size + 1) q i fits p small (omega arith)
