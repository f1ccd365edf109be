-- ===== src/Timer.antt =====
-- src/event/event_timer.c: the timers of the event loop, in a priority queue of node addresses.
-- `node` is the memory that holds the timer nodes; the comparator reads the keys in it. What
-- gettimeofday stores and what malloc answers are arguments; in a loop, the answers of the rounds
-- in turn. The calls of handlers are recorded in `calls`, the latest first; what the
-- handler does is in EventLoop.
pub mod Find
pub mod Expire
pub mod Add
pub mod Quiet
mod Tests
use sginx.Base.{
  ℕ, zero, suc, ◌+◌, ◌-◌, ◌*◌, ◌/◌, ◌%◌, ◌^◌, Bool, true, false, Option, none, some, List, ◌∷◌, ltb,
  if◌then◌else◌, write,
}
use sginx.Base.Run.{Run, ok, fault, out_of_fuel, ◌>>=◌}
use sginx.PriorityQueue.{Queue, Block, Status, word, init, empty, top, push, pop}

-- sgx_timer_node; `handler` and `request` are addresses
pub record Node : Type 0 where
  pub key : ℕ
  pub del : Bool
  pub handler : Option ℕ
  pub request : ℕ

-- struct timeval
pub record Time : Type 0 where
  pub sec : ℕ
  pub usec : ℕ

-- A call of a handler: the timer, what was called with what, and the time then.
pub record Call : Type 0 where
  pub timer : ℕ
  pub handler : ℕ
  pub request : ℕ
  pub now : ℕ

-- sgx_timer_Q, sgx_current_msec, the nodes, and the field `timer` of every request
pub record Timers : Type 0 where
  pub queue : Queue ℕ
  pub now : ℕ
  pub node : ℕ → Node
  pub timer : ℕ → Option ℕ
  pub calls : List Call

-- timer_cmp
abbrev pub timer_cmp : (ℕ → Node) → ℕ → ℕ → Bool
timer_cmp node x y = ltb (node x).key (node y).key

-- timer_update: a failed gettimeofday is logged, and what `value` holds is used all the same
abbrev pub timer_update : Timers → Time → Timers
timer_update t value = record t { now = word (value.sec * 1000 + value.usec / 1000) }

-- sgx_timer_init: a failed sgx_priority_queue_init is logged, and the queue stays as it was
unfoldable pub timer_init : Timers → Option (Block ℕ) → Time → Timers
unfolding init
timer_init t answer value =
    timer_update (record t { queue = elim (init 10 answer) [ none ↦ t.queue | some q ↦ q ] }) value

-- what sgx_timer_find returns: SGX_TIMER_INFINITE or a number of milliseconds
pub data Wait : Type 0 where
  infinite : Wait
  msec : ℕ → Wait

-- `time = (int)(key - now); time = SGX_MAX(time, 0);`
abbrev pub remaining : ℕ → ℕ → ℕ
remaining key now =
    let time = word (key + 2 ^ 64 - now) % 2 ^ 32 in if ltb time (2 ^ 31) then time else 0

-- the node at the root, through the pointer that top returns
abbrev pub top_node : Timers → Run ℕ
top_node t = top t.queue >>= λ a. elim a [ none ↦ fault | some p ↦ ok p ]

-- `sgx_priority_queue_pop(&sgx_timer_Q)`, whose failure is logged only
abbrev pub drop_top : Timers → Option (Block ℕ) → Run Timers
drop_top t answer = pop (timer_cmp t.node) t.queue answer >>= λ r. ok (record t { queue = r.1 })

-- the loop of sgx_timer_find
pub find_loop : ℕ → Timers → (ℕ → Time) → (ℕ → Option (Block ℕ)) → Run (Wait × Timers)
unfolding empty
find_loop zero t clock answers = out_of_fuel
find_loop (suc k) t clock answers =
    let t1 = timer_update t (clock 0) in
    let skip : Run (Wait × Timers) = (do
      t2 ← drop_top t1 (answers 0)
      find_loop k t2 (λ i. clock (i + 1)) (λ i. answers (i + 1))) in
    let round : Run (Wait × Timers) = (do
      p ← top_node t1
      if (t1.node p).del then skip else ok (msec (remaining (t1.node p).key t1.now), t1)) in
    if empty t.queue then ok (infinite, t) else round

-- sgx_timer_find
unfoldable pub timer_find : Timers → (ℕ → Time) → (ℕ → Option (Block ℕ)) → Run (Wait × Timers)
unfolding find_loop top pop
timer_find t clock answers = find_loop (t.queue.size + 1) t clock answers

-- `if(node -> handler) node -> handler(node -> request);`
abbrev pub call_if : Option ℕ → Timers → ℕ → Timers
call_if none t p = t
call_if (some h) t p = record t {
  calls = record { timer = p; handler = h; request = (t.node p).request; now = t.now } ∷ t.calls;
}

abbrev pub call_handler : Timers → ℕ → Timers
call_handler t p = call_if (t.node p).handler t p

-- the loop of sgx_handle_expire_timers
pub expire_loop : ℕ → Timers → (ℕ → Time) → (ℕ → Option (Block ℕ)) → Run Timers
unfolding empty
expire_loop zero t clock answers = out_of_fuel
expire_loop (suc k) t clock answers =
    let t1 = timer_update t (clock 0) in
    let next : Timers → Run Timers = λ t2. (do
      t3 ← drop_top t2 (answers 0)
      expire_loop k t3 (λ i. clock (i + 1)) (λ i. answers (i + 1))) in
    let round : Run Timers = (do
      p ← top_node t1
      let late = if ltb t1.now (t1.node p).key then ok t1 else next (call_handler t1 p)
      if (t1.node p).del then next t1 else late) in
    if empty t.queue then ok t else round

-- sgx_handle_expire_timers
unfoldable pub handle_expire_timers : Timers → (ℕ → Time) → (ℕ → Option (Block ℕ)) → Run Timers
unfolding expire_loop top pop
handle_expire_timers t clock answers = expire_loop (t.queue.size + 1) t clock answers

-- sgx_timer_add: `fresh` is the malloc of the node, `answer` that of a larger queue. A malloc that
-- refuses the node is logged, and the null pointer is written through; a failed push is logged.
unfoldable pub timer_add :
    Timers → (request timeout : ℕ) → Option ℕ → Option ℕ → Option (Block ℕ) → Time → Run Timers
unfolding push
timer_add t request timeout handler none answer value = fault
timer_add t request timeout handler (some p) answer value =
    let t1 = timer_update t value in
    let made : Node = record {
      key = word (t1.now + timeout);
      del = false;
      handler = handler;
      request = request;
    } in
    let t2 = record t1 { node = write t1.node p made; timer = write t1.timer request (some p) } in
    push (timer_cmp t2.node) t2.queue p answer >>= λ r. ok (record t2 { queue = r.1 })

-- sgx_timer_del: a request with no timer is logged, and the null pointer is written through
unfoldable pub timer_del : Timers → ℕ → Time → Run Timers
timer_del t request value =
    let t1 = timer_update t value in
    elim (t1.timer request) [
      | none ↦ fault
      | some p ↦ ok (record t1 { node = write t1.node p (record (t1.node p) { del = true }) })
    ]
