-- ===== src/ThreadPool/Reach.antt =====
-- What holds in every pool that can be reached.
use sginx.Base.{
  ℕ, ◌<◌, ◌≡◌, ◌≢◌, ◌∙◌, ap, append-nil, refl, true, Option, none, some, [], ◌++◌, arith, subst,
}
use sginx.ThreadPool.{
  exited, gone, Pool, null_access, create, worker_step, Step, works, wakes, adds, destroys,
  IsReachable, created, stepped,
}
use sginx.ThreadPool.Invariant.{holds, is_holder, IsAt, IsSound, OnMove}
use sginx.ThreadPool.Worker.{worker-IsSound}
use sginx.ThreadPool.Others.{wake-IsSound, enqueue-IsSound}
use sginx.ThreadPool.Destroy.{destroy-IsSound}

create-IsSound : (n : ℕ) → IsSound (create n)
create-IsSound n = record {
  inside = λ i at. absurd (ground arith);
  holder = λ i. refl;
  looked = λ i at. absurd (ground arith);
  found_none = λ i at. refl;
  awake = λ more. absurd (ground arith);
  exits = λ i at. absurd (ground arith);
  in_order = refl;
  phase_sound = (refl, refl);
}

step-IsSound : (s t : Pool) → IsSound s → Step s t → IsSound t
step-IsSound s t v (works i _ m e) = subst (OnMove IsSound) e (worker-IsSound s i v m)
step-IsSound s t v (wakes i m at) = wake-IsSound s i v m at
step-IsSound s t v (adds routine arg answer w chosen _ asked early ne pick e) =
    subst (OnMove IsSound) e (enqueue-IsSound s w chosen s.lock v ne refl pick)
step-IsSound s t v (destroys _ e) = subst (OnMove IsSound) e (destroy-IsSound s v)

pub reachable-IsSound : (n : ℕ) (s : Pool) → IsReachable n s → IsSound s
reachable-IsSound n s created = create-IsSound n
reachable-IsSound n s (stepped u _ r step) = step-IsSound u s (reachable-IsSound n u r) step

-- In every reachable pool, two workers are never inside the lock at once, a worker that takes a step
-- never follows a null pointer, and the jobs that were taken, freed without a run and still listed
-- are, in this order, the jobs that were added: jobs start in the order of their addition, and
-- none is lost or started twice.
pub pool_safe :
    (n : ℕ) (s : Pool)
    → IsReachable n s
    → ((i j : ℕ) → holds (s.place i) ≡ true → holds (s.place j) ≡ true → i ≡ j)
      × ((i : ℕ) → i < s.max_num → worker_step s i ≢ null_access)
      × (s.added ≡ s.taken ++ s.dropped ++ s.now)
pool_safe n s r =
    let v = reachable-IsSound n s r in
    (
      (λ i j hi hj.
          one_holder i j s.lock (subst (λ b. b ≡ true) (v.holder i) hi)
            (subst (λ b. b ≡ true) (v.holder j) hj)),
      (λ i m e. subst (OnMove IsSound) e (worker-IsSound s i v m)),
      v.in_order,
    )
  where
    one_holder :
        (i j : ℕ) (lock : Option ℕ) → is_holder lock i ≡ true → is_holder lock j ≡ true → i ≡ j
    one_holder i j none hi hj = absurd (ground arith)
    one_holder i j (some k) hi hj = ground arith

-- When sgx_thread_pool_destroy has returned, every worker has ended, no job is listed, and each
-- job that was added was either taken or freed.
pub destroy_complete :
    (n : ℕ) (s : Pool)
    → IsReachable n s
    → s.phase ≡ gone
    → ((i : ℕ) → i < s.max_num → s.place i ≡ exited)
      × (s.now ≡ [])
      × (s.added ≡ s.taken ++ s.dropped)
destroy_complete n s r e =
    let v = reachable-IsSound n s r in
    let over : IsAt gone s = subst (λ p. IsAt p s) e v.phase_sound in
    (
      over.1,
      over.2,
      v.in_order ∙ ap (λ l. s.taken ++ s.dropped ++ l) over.2 ∙ append-nil (s.taken ++ s.dropped),
    )
