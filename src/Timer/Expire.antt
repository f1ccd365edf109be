-- ===== src/Timer/Expire.antt =====
-- sgx_handle_expire_timers: which handlers are called.
use mathlib.Core.Bool.{not}
use sginx.Base.{
  ℕ, zero, suc, ◌+◌, ◌≤◌, ◌<◌, ◌≡◌, ◌⊎◌, ◌∙◌, ap, subst, sym, refl, inl, inr, Bool, true, false,
  ◌&&◌, Option, none, some, List, [], ◌∷◌, ◌++◌, arith, ltb, ◌==◌, Bool-cases, All, All-append,
  append_assoc,
}
use sginx.Base.Run.{Returns, returns, Returns-map, Returns-bind, ◌>>=◌}
use sginx.PriorityQueue.{Block, Queue}
use sginx.PriorityQueue.Items.{count, one_if}
use sginx.PriorityQueue.Order.{IsValid}
use sginx.Timer.{
  Node, Time, Call, Timers, timer_update, drop_top, call_handler, call_if, expire_loop,
  handle_expire_timers,
}
use sginx.Timer.Find.{top_node-ok, Dropped, drop_top-Dropped}

abbrev pub is_some {ℓ} : {A : Type ℓ} → Option A → Bool
is_some none = false
is_some (some a) = true

-- a timer that is not deleted and has a handler
abbrev pub is_armed : Timers → ℕ → Bool
is_armed t a = not (t.node a).del && is_some (t.node a).handler

-- how many armed timers of the queue pass the test, and how many calls were for such timers
abbrev pub armed : Timers → (ℕ → Bool) → ℕ
armed t test = count (λ a. is_armed t a && test a) t.queue.node t.queue.size

abbrev pub calls_for : (ℕ → Bool) → List Call → ℕ
calls_for test [] = 0
calls_for test (c ∷ cs) = one_if (test c.timer) + calls_for test cs

-- the call was due: the timer was not deleted, its handler was called with its request, and not
-- before its time
pub record IsDue (node : ℕ → Node) (c : Call) : Type 0 where
  pub live : (node c.timer).del ≡ false
  pub handler : (node c.timer).handler ≡ some c.handler
  pub request : (node c.timer).request ≡ c.request
  pub reached : (node c.timer).key ≤ c.now

pub record Expired (t u : Timers) : Type 0 where
  pub fired : List Call
  pub calls : u.calls ≡ fired ++ t.calls
  pub due : All (IsDue t.node) fired
  pub once : (test : ℕ → Bool) → armed u test + calls_for test fired ≡ armed t test
  pub valid : IsValid u.queue
  pub size : u.queue.size ≤ t.queue.size
  pub max_size : u.queue.max_size ≤ t.queue.max_size
  pub node : u.node ≡ t.node
  pub root :
      (u.queue.size ≡ 0)
      ⊎ ((0 < u.queue.size)
          × ((u.node (u.queue.node 1)).del ≡ false)
          × (u.now < (u.node (u.queue.node 1)).key))

calls_for-append :
    (test : ℕ → Bool) (xs ys : List Call)
    → calls_for test (xs ++ ys) ≡ calls_for test xs + calls_for test ys
calls_for-append test [] ys = omega arith
calls_for-append test (x ∷ xs) ys = omega (arith, calls_for-append test xs ys)

armed-Dropped :
    (t u : Timers) (test : ℕ → Bool)
    → Dropped t u
    → armed u test + one_if (is_armed t (t.queue.node 1) && test (t.queue.node 1)) ≡ armed t test
armed-Dropped t u test dropped =
    let same : armed u test ≡ count (λ a. is_armed t a && test a) u.queue.node u.queue.size =
      ap
        (λ (node : ℕ → Node).
          count (λ a. (not (node a).del && is_some (node a).handler) && test a) u.queue.node
            u.queue.size)
        dropped.node in
    omega (arith, same, dropped.items (λ a. is_armed t a && test a))

-- one round that drops the root `p` after the calls `now`, and the rounds that follow
Expired-Dropped :
    (t t2 u v : Timers) (now : List Call)
    → t2.node ≡ t.node
    → t2.calls ≡ now ++ t.calls
    → t2.queue ≡ t.queue
    → All (IsDue t.node) now
    → ((test : ℕ → Bool) → armed u test + calls_for test now ≡ armed t test)
    → Dropped t2 u
    → Expired u v
    → Expired t v
Expired-Dropped t t2 u v now nodes called queues due once dropped rest = record {
  fired = rest.fired ++ now;
  calls =
      rest.calls
      ∙ ap (λ cs. rest.fired ++ cs) (dropped.calls ∙ called)
      ∙ sym (append_assoc rest.fired now t.calls);
  due =
      All-append (IsDue t.node) rest.fired now
        (subst (λ node. All (IsDue node) rest.fired) (dropped.node ∙ nodes) rest.due, due);
  once = λ test. omega (arith, rest.once test, once test, calls_for-append test rest.fired now);
  valid = rest.valid;
  size = omega (arith, rest.size, dropped.size, ap (λ (q : Queue ℕ). q.size) queues);
  max_size =
      omega (arith, rest.max_size, dropped.max_size, ap (λ (q : Queue ℕ). q.max_size) queues);
  node = rest.node ∙ dropped.node ∙ nodes;
  root = rest.root;
}

-- the loop ends
Expired-rest :
    (t : Timers) (n : ℕ)
    → IsValid t.queue
    → ((t.queue.size ≡ 0)
        ⊎ ((0 < t.queue.size)
            × ((t.node (t.queue.node 1)).del ≡ false)
            × (n < (t.node (t.queue.node 1)).key)))
    → Expired t (record t { now = n })
Expired-rest t n valid root = record {
  fired = [];
  calls = refl;
  due = tt;
  once = λ test. omega arith;
  valid = valid;
  size = omega arith;
  max_size = omega arith;
  node = refl;
  root = root;
}

-- a call of the root's handler, if it has one
Expired-called :
    (t u v : Timers) (value : Time) (handler : Option ℕ)
    → (t.node (t.queue.node 1)).handler ≡ handler
    → (t.node (t.queue.node 1)).del ≡ false
    → (t.node (t.queue.node 1)).key ≤ (timer_update t value).now
    → Dropped (call_if handler (timer_update t value) (t.queue.node 1)) u
    → Expired u v
    → Expired t v
Expired-called t u v value none e alive reached dropped rest =
    Expired-Dropped t (timer_update t value) u v [] refl refl refl tt
      (λ test. ground (arith, armed-Dropped (timer_update t value) u test dropped)) dropped rest
Expired-called t u v value (some h) e alive reached dropped rest =
    let p = t.queue.node 1 in
    let t1 = timer_update t value in
    let call : Call = record {
      timer = p;
      handler = h;
      request = (t.node p).request;
      now = t1.now;
    } in
    Expired-Dropped t (call_if (some h) t1 p) u v (call ∷ []) refl refl refl
      (record { live = alive; handler = e; request = refl; reached = reached }, tt)
      (λ test. ground (arith, armed-Dropped (call_if (some h) t1 p) u test dropped)) dropped rest

call_if-queue : (handler : Option ℕ) (t : Timers) (p : ℕ) → (call_if handler t p).queue ≡ t.queue
call_if-queue none t p = refl
call_if-queue (some h) t p = refl

expire_loop-Expired :
    (k : ℕ) (t : Timers) (clock : ℕ → Time) (answers : ℕ → Option (Block ℕ))
    → IsValid t.queue
    → t.queue.size < k
    → Returns (Expired t) (expire_loop k t clock answers)
unfolding expire_loop
expire_loop-Expired zero t clock answers valid f = absurd (omega arith)
expire_loop-Expired (suc k) t clock answers valid f = elim (Bool-cases (t.queue.size == 0)) [
  | inl none_left ↦ rw none_left (returns (Expired-rest t t.now valid (inl (ground arith))))
  | inr more ↦
      let t1 = timer_update t (clock 0) in
      let p = t.queue.node 1 in
      let pos : 0 < t.queue.size = ground arith in
      let next : (t2 : Timers)
          → t2.queue ≡ t.queue
          → ((u v : Timers) → Dropped t2 u → Expired u v → Expired t v)
          → Returns (Expired t) (
              drop_top t2 (answers 0) >>= λ u.
              expire_loop k u (λ i. clock (i + 1)) (λ i. answers (i + 1))) =
        λ t2 queue join.
          Returns-bind (drop_top-Dropped t2 (answers 0) (rw queue valid) (rw queue pos))
            λ u dropped.
              let same : t2.queue.size ≡ t.queue.size = ap (λ (q : Queue ℕ). q.size) queue in
              Returns-map
                (expire_loop-Expired k u (λ i. clock (i + 1)) (λ i. answers (i + 1)) dropped.valid
                  (omega (arith, dropped.size, same)))
                λ v rest. join u v dropped rest in
      rw (more, top_node-ok t1 valid pos)
        (elim (Bool-cases (t.node p).del) [
          | inl gone ↦ rw gone (
              next t1 refl (λ u v dropped rest.
                Expired-Dropped t t1 u v [] refl refl refl tt
                  (λ test. ground (arith, armed-Dropped t1 u test dropped)) dropped rest))
          | inr alive ↦ rw alive (elim (Bool-cases (ltb t1.now (t.node p).key)) [
            | inl late ↦
                rw late (returns (Expired-rest t t1.now valid (inr (pos, alive, ground arith))))
            | inr reached ↦ rw reached (
                next (call_handler t1 p) (call_if-queue (t.node p).handler t1 p)
                  (λ u v dropped rest.
                    Expired-called t u v (clock 0) (t.node p).handler refl alive (ground arith)
                      dropped rest))
          ])
        ])
]

-- Called on a valid queue, sgx_handle_expire_timers returns, whatever malloc answers; one round
-- for each timer is enough. Every call that it made was due: of a timer not deleted, of its own
-- handler with its own request, at a time not before its key. Every armed timer either is still
-- in the queue or had its handler called, once. In the end the queue is empty, or its root is not
-- deleted and its time has not come.
pub expire_correct :
    (t : Timers) (clock : ℕ → Time) (answers : ℕ → Option (Block ℕ))
    → IsValid t.queue
    → Returns (Expired t) (handle_expire_timers t clock answers)
unfolding handle_expire_timers
expire_correct t clock answers valid =
    expire_loop-Expired (t.queue.size + 1) t clock answers valid (omega arith)
