-- ===== src/Timer/Find.antt =====
-- sgx_timer_find: how long the event loop may wait.
use mathlib.Core.Bool.{not}
use sginx.Base.{
  ℕ, zero, suc, ◌+◌, ◌-◌, ◌^◌, ◌≤◌, ◌<◌, ◌≡◌, ◌⊎◌, ◌∙◌, ap, refl, inl, inr, Bool, true, false, ◌&&◌,
  Option, arith, ◌==◌, Bool-cases,
}
use sginx.Base.Run.{ok, Returns, returns, Returns-map, Returns-bind}
use sginx.PriorityQueue.{Block}
use sginx.PriorityQueue.Items.{count, one_if}
use sginx.PriorityQueue.Order.{Ranking, IsValid}
use sginx.PriorityQueue.Pop.{pop_correct, top-ok}
use sginx.Timer.{
  Node, Time, Timers, timer_cmp, timer_update, Wait, infinite, msec, remaining, top_node, drop_top,
  find_loop, timer_find,
}

-- the comparator orders the nodes by their keys
abbrev pub by_key : (node : ℕ → Node) → Ranking (timer_cmp node)
by_key node = record { rank = λ a. (node a).key; agrees = λ a b. refl }

-- a timer that is not deleted
abbrev pub is_live : Timers → ℕ → Bool
is_live t a = not (t.node a).del

-- how many live timers of the queue pass the test
abbrev pub live : Timers → (ℕ → Bool) → ℕ
live t test = count (λ a. is_live t a && test a) t.queue.node t.queue.size

-- the root's node is read, and a pop drops it and nothing else
pub top_node-ok :
    (t : Timers) → IsValid t.queue → 0 < t.queue.size → top_node t ≡ ok (t.queue.node 1)
top_node-ok t valid pos = rw (top-ok t.queue valid pos)

-- `u` is `t` with the root of its queue dropped
pub record Dropped (t u : Timers) : Type 0 where
  pub node : u.node ≡ t.node
  pub now : u.now ≡ t.now
  pub calls : u.calls ≡ t.calls
  pub timer : u.timer ≡ t.timer
  pub valid : IsValid u.queue
  pub size : u.queue.size + 1 ≡ t.queue.size
  pub max_size : u.queue.max_size ≤ t.queue.max_size
  pub items :
      (test : ℕ → Bool)
      → count test u.queue.node u.queue.size + one_if (test (t.queue.node 1))
        ≡ count test t.queue.node t.queue.size

pub drop_top-Dropped :
    (t : Timers) (answer : Option (Block ℕ))
    → IsValid t.queue
    → 0 < t.queue.size
    → Returns (Dropped t) (drop_top t answer)
drop_top-Dropped t answer valid pos =
    Returns-bind (pop_correct (timer_cmp t.node) (by_key t.node) t.queue answer valid pos)
      λ (status, q) (popped, refused). returns (record {
        node = refl;
        now = refl;
        calls = refl;
        timer = refl;
        valid = popped.valid;
        size = popped.size;
        max_size = popped.max_size;
        items = popped.items;
      })

-- The answer `w`, from `t` to `u`: only deleted timers have left the queue, and the root of what
-- is left decides.
pub record Found (t : Timers) (w : Wait) (u : Timers) : Type 0 where
  pub valid : IsValid u.queue
  pub node : u.node ≡ t.node
  pub calls : u.calls ≡ t.calls
  pub size : u.queue.size ≤ t.queue.size
  pub max_size : u.queue.max_size ≤ t.queue.max_size
  pub live : (test : ℕ → Bool) → live u test ≡ live t test
  pub root :
      ((w ≡ infinite) × (u.queue.size ≡ 0))
      ⊎ ((w ≡ msec (remaining (u.node (u.queue.node 1)).key u.now))
          × (0 < u.queue.size)
          × ((u.node (u.queue.node 1)).del ≡ false))

-- dropping a deleted root keeps the live timers, dropping a live one takes it out
pub live-Dropped :
    (t u : Timers) (test : ℕ → Bool)
    → Dropped t u
    → live u test + one_if (is_live t (t.queue.node 1) && test (t.queue.node 1)) ≡ live t test
live-Dropped t u test dropped =
    let same : live u test ≡ count (λ a. is_live t a && test a) u.queue.node u.queue.size =
      ap (λ (node : ℕ → Node). count (λ a. not (node a).del && test a) u.queue.node u.queue.size)
        dropped.node in
    omega (arith, same, dropped.items (λ a. is_live t a && test a))

Found-Dropped :
    (t u : Timers) (value : Time) (w : Wait) (v : Timers)
    → (t.node (t.queue.node 1)).del ≡ true
    → Dropped (timer_update t value) u
    → Found u w v
    → Found t w v
Found-Dropped t u value w v gone dropped found = record {
  valid = found.valid;
  node = found.node ∙ dropped.node;
  calls = found.calls ∙ dropped.calls;
  size = omega (arith, found.size, dropped.size);
  max_size = omega (arith, found.max_size, dropped.max_size);
  live =
      λ test. ground (arith, found.live test, live-Dropped (timer_update t value) u test dropped);
  root = found.root;
}

find_loop-Found :
    (k : ℕ) (t : Timers) (clock : ℕ → Time) (answers : ℕ → Option (Block ℕ))
    → IsValid t.queue
    → t.queue.size < k
    → Returns (λ (w, u). Found t w u) (find_loop k t clock answers)
unfolding find_loop
find_loop-Found zero t clock answers valid f = absurd (omega arith)
find_loop-Found (suc k) t clock answers valid f = elim (Bool-cases (t.queue.size == 0)) [
  | inl none_left ↦ rw none_left (
      returns (record {
        valid = valid;
        node = refl;
        calls = refl;
        size = omega arith;
        max_size = omega arith;
        live = λ test. refl;
        root = inl (refl, ground arith);
      }))
  | inr more ↦
      let pos : 0 < t.queue.size = ground arith in
      rw (more, top_node-ok (timer_update t (clock 0)) valid pos)
        (elim (Bool-cases (t.node (t.queue.node 1)).del) [
          | inl gone ↦ rw gone (
              Returns-bind (drop_top-Dropped (timer_update t (clock 0)) (answers 0) valid pos)
                λ u dropped.
                  Returns-map
                    (find_loop-Found k u (λ i. clock (i + 1)) (λ i. answers (i + 1)) dropped.valid
                      (omega (arith, dropped.size)))
                    λ (w, v) found. Found-Dropped t u (clock 0) w v gone dropped found)
          | inr alive ↦ rw alive (
              returns (record {
                valid = valid;
                node = refl;
                calls = refl;
                size = omega arith;
                max_size = omega arith;
                live = λ test. refl;
                root = inr (refl, pos, alive);
              }))
        ])
]

-- Called on a valid queue, sgx_timer_find returns, whatever malloc answers; one round for each
-- timer is enough. Only deleted timers have left the queue, no handler was called, and either
-- the queue is empty and the answer is SGX_TIMER_INFINITE, or its root is not deleted and the
-- answer is the time that the root has left.
pub find_correct :
    (t : Timers) (clock : ℕ → Time) (answers : ℕ → Option (Block ℕ))
    → IsValid t.queue
    → Returns (λ (w, u). Found t w u) (timer_find t clock answers)
unfolding timer_find
find_correct t clock answers valid =
    find_loop-Found (t.queue.size + 1) t clock answers valid (omega arith)

-- The time left, for a key and a clock of 64 bits: what is missing to the key if that is below
-- 2^31 milliseconds, and 0 for a key that has been reached within the last 2^31.
remaining_exact :
    (key now : ℕ)
    → key < 2 ^ 64
    → now < 2 ^ 64
    → (now ≤ key → key < now + 2 ^ 31 → remaining key now ≡ key - now)
      × (key ≤ now → now ≤ key + 2 ^ 31 → remaining key now ≡ 0)
remaining_exact key now hk hn = (λ le lt. ground arith, λ le lt. ground arith)
