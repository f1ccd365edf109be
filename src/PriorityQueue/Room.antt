-- ===== src/PriorityQueue/Room.antt =====
-- The room of the array under sgx_priority_queue_push, in whatever order the items are.
use sginx.Base.{
  ℕ, zero, suc, ◌+◌, ◌*◌, ◌/◌, ◌^◌, ◌≤◌, ◌<◌, ◌≡◌, ◌⊎◌, inl, inr, refl, Bool, Option, none, some,
  arith, ltb, ◌==◌, Bool-cases, lt→ltb, write,
}
use sginx.Base.Run.{Returns, returns, Returns-map, Returns-bind}
use sginx.PriorityQueue.Items.{count, one_if, count_congr, count-write_above}
use sginx.PriorityQueue.{copied, Queue, Block, Status, word, up_loop, up, insert, push}
use sginx.PriorityQueue.Order.{
  IsValid, load-ok, swapped, swap-ok, Moved, Moved-refl, Moved-trans, Moved-swapped,
}
use sginx.PriorityQueue.Push.{resized, resize-ok}

-- `r` has at most the item `v` more than `q`, and its array is no larger or is twice the items
pub record Grown {ℓ} {A : Type ℓ} (q : Queue A) (v : A) (r : Queue A) : Type ℓ where
  pub valid : IsValid r
  pub size : r.size ≤ q.size + 1
  pub max_size : (r.max_size ≡ q.max_size) ⊎ (r.max_size ≤ 2 * (q.size + 1))
  pub items :
      (test : A → Bool) → count test r.node r.size ≤ count test q.node q.size + one_if (test v)

unchanged {ℓ} : {A : Type ℓ} (q : Queue A) (v : A) → IsValid q → Grown q v q
unchanged q v valid = record {
  valid = valid;
  size = omega arith;
  max_size = inl refl;
  items = λ test. omega arith;
}

-- `r` has the item `v` more than `q`
record Inserted {ℓ} {A : Type ℓ} (q : Queue A) (v : A) (r : Queue A) : Type ℓ where
  valid : IsValid r
  size : r.size ≡ q.size + 1
  max_size : r.max_size ≡ q.max_size
  items : (test : A → Bool) → count test r.node r.size ≡ count test q.node q.size + one_if (test v)

module _ {ℓ} {A : Type ℓ} (cmp : A → A → Bool) where
  up_loop-Moved :
      (k : ℕ) (q : Queue A) (i : ℕ)
      → i ≤ q.size
      → q.size < q.cells
      → i < k
      → Returns (Moved q) (up_loop cmp k q i)
  unfolding up_loop
  up_loop-Moved zero q i inside room f = absurd (omega arith)
  up_loop-Moved (suc k) q i inside room f = elim (Bool-cases (ltb 1 i)) [
    | inr root ↦ rw root (returns (Moved-refl q))
    | inl more ↦
        let above : 1 < i = ground arith in
        rw (more, load-ok q i (omega arith), load-ok q (i / 2) (omega arith))
          (elim (Bool-cases (cmp (q.node i) (q.node (i / 2)))) [
            | inr higher ↦ rw higher (returns (Moved-refl q))
            | inl lower ↦
                rw (lower, swap-ok q i (i / 2) (omega arith) (omega arith))
                  (Returns-map
                    (up_loop-Moved k (swapped q i (i / 2)) (i / 2) (omega arith) room
                      (ground arith))
                    λ r same.
                      Moved-trans q (swapped q i (i / 2)) r
                        (Moved-swapped q i (i / 2) (omega arith) inside (omega arith) (omega arith))
                        same)
          ])
  ]

  joined : (q : Queue A) (v : A) (sr : Status × Queue A) → Inserted q v sr.1 → Grown q v sr.1
  joined q v sr inserted = record {
    valid = inserted.valid;
    size = omega (arith, inserted.size);
    max_size = inl inserted.max_size;
    items = λ test. omega (arith, inserted.items test);
  }

  insert-Grown :
      (q : Queue A) (v : A)
      → IsValid q
      → q.size + 1 < q.max_size
      → Returns (λ (status, r). Inserted q v r) (insert cmp q v)
  unfolding insert up count
  insert-Grown q v valid room =
      let size' : word (q.size + 1) ≡ suc q.size = omega arith in
      let stored : Queue A = record q { node = write q.node (suc q.size) v; size = suc q.size } in
      rw (size', lt→ltb (suc q.size) q.cells (omega arith))
        (Returns-bind
          (up_loop-Moved (suc q.size + 1) stored (suc q.size) (omega arith) (omega arith)
            (omega arith))
          λ r moved. returns (record {
            valid = omega (arith, moved.size, moved.max_size, moved.cells);
            size = omega (arith, moved.size);
            max_size = moved.max_size;
            items = λ test. ground (
              arith,
              moved.size,
              moved.same test,
              count-write_above test q.node q.size (suc q.size) v,
            );
          }))

  -- Push onto a valid queue, in whatever order its items are, stays inside the array and returns,
  -- whatever malloc answers, and leaves a valid queue.
  pub push-Grown :
      (q : Queue A) (v : A) (answer : Option (Block A))
      → IsValid q
      → q.max_size < 2 ^ 59
      → Returns (λ (status, r). Grown q v r) (push cmp q v answer)
  unfolding push
  push-Grown q v none valid small = elim (Bool-cases (word (q.size + 1) == q.max_size)) [
    | inr part ↦ rw part (Returns-map (insert-Grown q v valid (ground arith)) (joined q v))
    | inl full ↦ rw full (returns (unchanged q v valid))
  ]
  push-Grown q v (some b) valid small = elim (Bool-cases (word (q.size + 1) == q.max_size)) [
    | inr part ↦ rw part (Returns-map (insert-Grown q v valid (ground arith)) (joined q v))
    | inl full ↦
        let n : ℕ = word (q.max_size * 2) in
        let more : q.size + 1 < n = ground arith in
        rw (full, resize-ok q n b (omega arith) (omega arith) (omega arith))
          (Returns-map (insert-Grown (resized q n b) v (omega arith) more) λ (status, r) inserted.
            record {
              valid = inserted.valid;
              size = omega (arith, inserted.size);
              max_size = inr (ground (arith, inserted.max_size, full));
              items = λ test. ground (
                arith,
                inserted.items test,
                count_congr test q.node (copied q b.content) q.size (λ i le. ground arith),
              );
            })
  ]
