-- ===== src/Timer/Quiet.antt =====
-- Timers of src/event/event_timer.c of which none is due before a time.
use sginx.Base.{
  ℕ, zero, suc, ◌+◌, ◌*◌, ◌/◌, ◌^◌, ◌≤◌, ◌<◌, ◌≡◌, ◌⊎◌, refl, inl, inr, Bool, true, false, ◌||◌,
  Option, some, ltb, ◌==◌, arith, write, Bool-cases,
}
use sginx.Base.Run.{Returns, returns, Returns-bind}
use sginx.PriorityQueue.{Block, word}
use sginx.PriorityQueue.Items.{count}
use sginx.PriorityQueue.Order.{IsValid}
use sginx.PriorityQueue.Room.{push-Grown}
use sginx.Timer.{
  Node, Time, Timers, timer_update, find_loop, timer_find, expire_loop, handle_expire_timers,
  timer_add,
}
use sginx.Timer.Find.{top_node-ok}

-- the timer is deleted, or its time comes before `bound`
abbrev pub is_due : (bound : ℕ) → (ℕ → Node) → ℕ → Bool
is_due bound node a = (node a).del || ltb (node a).key bound

-- no timer of the queue is
abbrev pub Quiet : (bound : ℕ) → Timers → Type 0
Quiet bound t = count (is_due bound t.node) t.queue.node t.queue.size ≡ 0

-- what sgx_current_msec becomes
abbrev pub msec_of : Time → ℕ
msec_of value = word (value.sec * 1000 + value.usec / 1000)

-- the clock shows a time not before `base`, and less than a timeout behind it
abbrev pub InWindow : (base timeout : ℕ) → Time → Type 0
InWindow base timeout value = (base ≤ msec_of value) × (msec_of value < base + timeout)

count_le :
    (test test' : ℕ → Bool) (f : ℕ → ℕ) (n : ℕ)
    → ((a : ℕ) → test a ≡ true → test' a ≡ true)
    → count test f n ≤ count test' f n
unfolding count
count_le test test' f zero weaker = omega arith
count_le test test' f (suc n) weaker = elim (Bool-cases (test (f (suc n)))) [
  | inl e ↦ ground (arith, weaker (f (suc n)) e, count_le test test' f n weaker)
  | inr e ↦ ground (arith, count_le test test' f n weaker)
]

count-first :
    (test : ℕ → Bool) (f : ℕ → ℕ) (n : ℕ) → 0 < n → count test f n ≡ 0 → test (f 1) ≡ false
unfolding count
count-first test f zero more e = absurd (omega arith)
count-first test f (suc zero) more e = ground (arith, e)
count-first test f (suc (suc n)) more e =
    count-first test f (suc n) (omega arith) (ground (arith, e))

not_due :
    (bound : ℕ) (node : ℕ → Node) (a : ℕ)
    → is_due bound node a ≡ false
    → ((node a).del ≡ false) × (bound ≤ (node a).key)
not_due bound node a e = (ground (arith, e), ground (arith, e))

find_loop-Quiet :
    (bound k : ℕ) (t : Timers) (clock : ℕ → Time) (answers : ℕ → Option (Block ℕ))
    → IsValid t.queue
    → Quiet bound t
    → 0 < k
    → Returns (λ (time, u). (u.queue ≡ t.queue) × (u.node ≡ t.node)) (find_loop k t clock answers)
unfolding find_loop
find_loop-Quiet bound zero t clock answers valid quiet more = absurd (omega arith)
find_loop-Quiet bound (suc k) t clock answers valid quiet more =
    elim (Bool-cases (t.queue.size == 0)) [
      | inl e ↦ rw e (returns (refl, refl))
      | inr e ↦
          let pos : 0 < t.queue.size = ground arith in
          let (alive, later) =
            not_due bound t.node (t.queue.node 1)
              (count-first (is_due bound t.node) t.queue.node t.queue.size pos quiet) in
          rw (e, top_node-ok (timer_update t (clock 0)) valid pos, alive) (returns (refl, refl))
    ]

-- sgx_timer_find leaves such timers as they are
pub timer_find-Quiet :
    (bound : ℕ) (t : Timers) (clock : ℕ → Time) (answers : ℕ → Option (Block ℕ))
    → IsValid t.queue
    → Quiet bound t
    → Returns (λ (time, u). (u.queue ≡ t.queue) × (u.node ≡ t.node)) (timer_find t clock answers)
unfolding timer_find
timer_find-Quiet bound t clock answers valid quiet =
    find_loop-Quiet bound (t.queue.size + 1) t clock answers valid quiet (omega arith)

expire_loop-Quiet :
    (bound k : ℕ) (t : Timers) (clock : ℕ → Time) (answers : ℕ → Option (Block ℕ))
    → IsValid t.queue
    → Quiet bound t
    → msec_of (clock 0) < bound
    → 0 < k
    → Returns
        (λ u. (u.queue ≡ t.queue) × (u.node ≡ t.node) × (u.calls ≡ t.calls))
        (expire_loop k t clock answers)
unfolding expire_loop
expire_loop-Quiet bound zero t clock answers valid quiet early more = absurd (omega arith)
expire_loop-Quiet bound (suc k) t clock answers valid quiet early more =
    elim (Bool-cases (t.queue.size == 0)) [
      | inl e ↦ rw e (returns (refl, refl, refl))
      | inr e ↦
          let pos : 0 < t.queue.size = ground arith in
          let (alive, later) =
            not_due bound t.node (t.queue.node 1)
              (count-first (is_due bound t.node) t.queue.node t.queue.size pos quiet) in
          let waits : ltb (msec_of (clock 0)) (t.node (t.queue.node 1)).key ≡ true =
            ground (arith, later, early) in
          rw (e, top_node-ok (timer_update t (clock 0)) valid pos, alive, waits)
            (returns (refl, refl, refl))
    ]

-- sgx_handle_expire_timers leaves them too, and calls no handler
pub handle_expire_timers-Quiet :
    (bound : ℕ) (t : Timers) (clock : ℕ → Time) (answers : ℕ → Option (Block ℕ))
    → IsValid t.queue
    → Quiet bound t
    → msec_of (clock 0) < bound
    → Returns
        (λ u. (u.queue ≡ t.queue) × (u.node ≡ t.node) × (u.calls ≡ t.calls))
        (handle_expire_timers t clock answers)
unfolding handle_expire_timers
handle_expire_timers-Quiet bound t clock answers valid quiet early =
    expire_loop-Quiet bound (t.queue.size + 1) t clock answers valid quiet early (omega arith)

-- one more timer, of which the time comes later
pub record Added (bound : ℕ) (t u : Timers) : Type 0 where
  pub valid : IsValid u.queue
  pub size : u.queue.size ≤ t.queue.size + 1
  pub max_size : (u.queue.max_size ≡ t.queue.max_size) ⊎ (u.queue.max_size ≤ 2 * (t.queue.size + 1))
  pub quiet : Quiet bound u

due-write :
    (bound : ℕ) (node : ℕ → Node) (p : ℕ) (made : Node) (a : ℕ)
    → made.del ≡ false
    → bound ≤ made.key
    → is_due bound (write node p made) a ≡ true
    → is_due bound node a ≡ true
due-write bound node p made a alive later due = ground (arith, alive, later, due)

due-new :
    (bound : ℕ) (node : ℕ → Node) (p : ℕ) (made : Node)
    → made.del ≡ false
    → bound ≤ made.key
    → is_due bound (write node p made) p ≡ false
due-new bound node p made alive later = ground (arith, alive, later)

pub timer_add-Added :
    (base timeout : ℕ) (t : Timers) (request : ℕ) (handler : Option ℕ) (p : ℕ)
    (answer : Option (Block ℕ))
    → (value : Time) → IsValid t.queue
    → t.queue.max_size < 2 ^ 59
    → Quiet (base + timeout) t
    → InWindow base timeout value
    → base + (timeout + timeout) < 2 ^ 64
    → Returns (Added (base + timeout) t) (timer_add t request timeout handler (some p) answer value)
unfolding timer_add
timer_add-Added base timeout t request handler p answer value valid small quiet inside no_wrap =
    let made : Node = record {
      key = word (msec_of value + timeout);
      del = false;
      handler = handler;
      request = request;
    } in
    let bound = base + timeout in
    let later : bound ≤ made.key = omega (arith, inside, no_wrap) in
    let fewer =
      count_le (is_due bound (write t.node p made)) (is_due bound t.node) t.queue.node t.queue.size
        (λ a due. due-write bound t.node p made a refl later due) in
    let fresh = due-new bound t.node p made refl later in
    Returns-bind (push-Grown _ t.queue p answer valid small) λ (status, q) grown. returns (record {
      valid = grown.valid;
      size = grown.size;
      max_size = grown.max_size;
      quiet = ground (arith, grown.items (is_due bound (write t.node p made)), fewer, fresh, quiet);
    })
