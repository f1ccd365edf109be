-- ===== src/PriorityQueue/Push.antt =====
-- sgx_priority_queue_push and priority_queue_resize: the new item joins the heap, the array grows
-- when it is full, and nothing changes when malloc refuses.
use sginx.Base.{
  ℕ, suc, ◌+◌, ◌*◌, ◌^◌, ◌<◌, ◌≡◌, refl, ◌∷◌, inl, inr, Bool, none, some, arith, ◌==◌, Bool-cases,
  write, lt→ltb,
}
use sginx.Base.Run.{ok, Returns, returns, Returns-map, Returns-bind}
use sginx.PriorityQueue.{
  Queue, Block, sgx_ok, failed, ptr, word, cells_of, copied, resize, insert, push,
}
use sginx.PriorityQueue.Items.{count, one_if, count_congr, count-write_above}
use sginx.PriorityQueue.Order.{Ranking, IsHeap, IsValid}
use sginx.PriorityQueue.Up.{UpInv, up-Lifted}

module _ {ℓ} {A : Type ℓ} where
  abbrev pub resized : Queue A → ℕ → Block A → Queue A
  resized q n b = record q {
    node = copied q b.content;
    block = b.name;
    cells = cells_of n;
    max_size = n;
    frees = ptr q.block 0 ∷ q.frees;
  }

  pub resize-ok :
      (q : Queue A) (n : ℕ) (b : Block A)
      → q.size < q.cells
      → q.size < n
      → n < 2 ^ 60
      → resize q n (some b) ≡ ok (sgx_ok, resized q n b)
  unfolding resize
  resize-ok q n b room more small = ground arith

-- what push leaves behind: one more item, in a valid queue in heap order
pub record Pushed {ℓ} {A : Type ℓ} (rank : A → ℕ) (q : Queue A) (v : A) (r : Queue A) : Type ℓ where
  pub valid : IsValid r
  pub heap : IsHeap rank r
  pub size : r.size ≡ q.size + 1
  pub items :
      (test : A → Bool) → count test r.node r.size ≡ count test q.node q.size + one_if (test v)

module _ {ℓ} {A : Type ℓ} (cmp : A → A → Bool) (ranking : Ranking cmp) where
  open ranking use {rank}

  insert_correct :
      (q : Queue A) (v : A)
      → IsValid q
      → IsHeap rank q
      → q.size + 1 < q.max_size
      → Returns (λ (status, r). (status ≡ sgx_ok) × Pushed rank q v r) (insert cmp q v)
  unfolding insert count
  insert_correct q v valid heap room =
      let size' : word (q.size + 1) ≡ suc q.size = omega arith in
      rw (size', lt→ltb (suc q.size) q.cells (omega arith))
        (Returns-bind (up-Lifted cmp ranking stored (suc q.size) start (omega arith))
          λ r (moved, order). returns (
            refl,
            record {
              valid = ground arith;
              heap = order;
              size = ground arith;
              items = λ test.
                  ground
                    (arith, moved.same test, count-write_above test q.node q.size (suc q.size) v);
            },
          ))
    where
      stored : Queue A
      stored = record q { node = write q.node (suc q.size) v; size = suc q.size }

      start : UpInv (λ j. rank (stored.node j)) (suc q.size) (suc q.size)
      start = record {
        positive = omega arith;
        inside = omega arith;
        edges = λ c p le ne. ground (arith, heap c);
        bridged = λ c p le e more. absurd (omega arith);
      }

  -- With memory to be had, push of any item onto a valid heap succeeds, within the array's
  -- bounds, and leaves a valid heap of one more item: the old ones and the new one.
  pub push_correct :
      (q : Queue A) (v : A) (b : Block A)
      → IsValid q
      → IsHeap rank q
      → q.max_size < 2 ^ 59
      → Returns (λ (status, r). (status ≡ sgx_ok) × Pushed rank q v r) (push cmp q v (some b))
  unfolding push
  push_correct q v b valid heap small = elim (Bool-cases (word (q.size + 1) == q.max_size)) [
    | inl full ↦
        let n : ℕ = word (q.max_size * 2) in
        let more : q.size + 1 < n = ground arith in
        rw (full, resize-ok q n b (omega arith) (omega arith) (omega arith))
          (Returns-map
            (insert_correct (resized q n b) v (omega arith) (λ c p le. ground (arith, heap c)) more)
            λ (status, r) (done, s). (
              done,
              record {
                valid = s.valid;
                heap = s.heap;
                size = s.size;
                items = λ test. ground (
                  arith,
                  s.items test,
                  count_congr test q.node (copied q b.content) q.size (λ i le. ground arith),
                );
              },
            ))
    | inr part ↦ rw part (insert_correct q v valid heap (ground arith))
  ]

  -- When the array is full and malloc refuses, push says so and changes nothing.
  pub push-failed :
      (q : Queue A) (v : A)
      → IsValid q
      → q.size + 1 ≡ q.max_size
      → push cmp q v none ≡ ok (failed, q)
  unfolding push resize
  push-failed q v valid full = ground arith
