-- ===== src/Timer/Add.antt =====
-- sgx_timer_add and sgx_timer_del.
use sginx.Base.{
  ℕ, ◌+◌, ◌/◌, ◌^◌, ◌≤◌, ◌<◌, ◌≡◌, ◌≢◌, refl, Bool, true, false, Option, none, some, List, [], ◌∷◌,
  ◌++◌, arith, ◌==◌, if◌then◌else◌, write, All,
}
use sginx.Base.Run.{Returns, returns, Returns-map, Returns-bind, ◌>>=◌}
use sginx.PriorityQueue.{Block, word}
use sginx.PriorityQueue.Items.{count, one_if}
use sginx.PriorityQueue.Order.{IsValid, IsHeap}
use sginx.PriorityQueue.Push.{push_correct, push-failed}
use sginx.Timer.{
  Node, Time, Call, Timers, timer_cmp, timer_update, timer_add, timer_del, handle_expire_timers,
}
use sginx.Timer.Find.{by_key}
use sginx.Timer.Expire.{expire_correct}

-- the queue is in the order of its timers' keys
abbrev pub InKeyOrder : Timers → Type 0
InKeyOrder t = IsHeap (λ a. (t.node a).key) t.queue

-- the address is none of the queue's
abbrev pub IsFresh : Timers → ℕ → Type 0
IsFresh t p = (i : ℕ) → 0 < i → i ≤ t.queue.size → t.queue.node i ≢ p

-- the node that sgx_timer_add fills
abbrev pub new_node : ℕ → ℕ → Option ℕ → ℕ → Node
new_node request timeout handler now = record {
  key = word (now + timeout);
  del = false;
  handler = handler;
  request = request;
}

-- `u` is `t` with one more timer
pub record Added (t : Timers) (p : ℕ) (made : Node) (u : Timers) : Type 0 where
  pub valid : IsValid u.queue
  pub order : InKeyOrder u
  pub size : u.queue.size ≡ t.queue.size + 1
  pub items :
      (test : ℕ → Bool)
      → count test u.queue.node u.queue.size
        ≡ count test t.queue.node t.queue.size + one_if (test p)
  pub node : (a : ℕ) → u.node a ≡ (if p == a then made else t.node a)
  pub timer : u.timer made.request ≡ some p
  pub others : (q : ℕ) → q ≢ made.request → u.timer q ≡ t.timer q
  pub calls : u.calls ≡ t.calls

module _ (t : Timers) (request timeout : ℕ) (handler : Option ℕ) (p : ℕ) (value : Time) where
  abbrev now : ℕ
  now = (timer_update t value).now

  abbrev store : ℕ → Node
  store = write t.node p (new_node request timeout handler now)

  -- On a valid queue in the order of the keys, with memory to be had at an address that is not in
  -- use, sgx_timer_add adds exactly the new timer: its key is the time of the call plus the
  -- timeout, in 64 bits, it is not deleted, its request points at it, no other
  -- request's timer changes, and the order is kept.
  pub add_correct :
      (b : Block ℕ)
      → IsValid t.queue
      → InKeyOrder t
      → IsFresh t p
      → t.queue.max_size < 2 ^ 59
      → Returns
          (Added t p (new_node request timeout handler (timer_update t value).now))
          (timer_add t request timeout handler (some p) (some b) value)
  unfolding timer_add
  add_correct b valid order fresh small =
      Returns-bind
        (push_correct (timer_cmp store) (by_key store) t.queue p b valid
          (λ c big le. ground (arith, order c, fresh c, fresh (c / 2))) small)
        λ (status, q) (done, pushed). returns (record {
          valid = pushed.valid;
          order = pushed.heap;
          size = pushed.size;
          items = pushed.items;
          node = λ a. refl;
          timer = ground arith;
          others = λ q ne. ground arith;
          calls = refl;
        })

  -- When the queue is full and malloc refuses to enlarge it, sgx_timer_add returns as usual, the
  -- request points at the new node, and the queue is the old one: the timer will never fire.
  add-lost :
      IsValid t.queue
      → t.queue.size + 1 ≡ t.queue.max_size
      → Returns
          (λ u. (u.queue ≡ t.queue) × (u.timer request ≡ some p))
          (timer_add t request timeout handler (some p) none value)
  unfolding timer_add
  add-lost valid full =
      rw (push-failed (timer_cmp store) (by_key store) t.queue p valid full)
        (returns (refl, ground arith))

All-map : {P Q : Call → Type 0} (cs : List Call) → ((c : Call) → P c → Q c) → All P cs → All Q cs
All-map [] f h = tt
All-map (c ∷ cs) f h = (f c h.0, All-map cs f h.1)

-- A timer that sgx_timer_del has marked is not fired by sgx_handle_expire_timers, whenever that
-- runs: none of the calls that it makes is for it.
pub del-silences :
    (t : Timers) (request p : ℕ) (value : Time) (clock : ℕ → Time) (answers : ℕ → Option (Block ℕ))
    → IsValid t.queue
    → t.timer request ≡ some p
    → Returns
        (λ u. (fired : List Call) × (u.calls ≡ fired ++ t.calls) × All (λ c. c.timer ≢ p) fired)
        (timer_del t request value >>= λ t1. handle_expire_timers t1 clock answers)
unfolding timer_del
del-silences t request p value clock answers valid has =
    let marked : Timers = record t {
      now = (timer_update t value).now;
      node = write t.node p (record (t.node p) { del = true });
    } in
    rw (has, timer_del)
      (Returns-map (expire_correct marked clock answers valid) λ u expired. (
        expired.fired,
        expired.calls,
        All-map expired.fired (λ c due e. absurd (ground (arith, due.live, e))) expired.due,
      ))
