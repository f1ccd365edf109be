-- ===== src/PriorityQueue/Tests.antt =====
-- The queue's operations on small arrays, and the theorems at inputs that meet their hypotheses.
use sginx.Base.{ℕ, zero, suc, ◌≡◌, refl, Option, none, some, List, [], ◌∷◌, arith, ltb, cell}
use sginx.Base.Run.{Run, ok, Returns, returns}
use sginx.PriorityQueue.{Queue, Block, Status, sgx_ok, init, push, pop, clear}
use sginx.PriorityQueue.Order.{Ranking, IsHeap, IsValid}
use sginx.PriorityQueue.Push.{Pushed, push_correct}
use sginx.PriorityQueue.Pop.{Popped, Refused, pop_correct}
use sginx.PriorityQueue.Down.{LeftOrder}

abbrev by_size : Ranking ltb
by_size = record { rank = λ n. n; agrees = λ a b. refl }

abbrev spare : Block ℕ
spare = record { name = 9; content = λ i. 0 }

-- four items in an array of ten
abbrev sample : Queue ℕ
sample = record {
  node = cell (0 ∷ 1 ∷ 5 ∷ 2 ∷ 9 ∷ []);
  block = 7;
  cells = 11;
  size = 4;
  max_size = 10;
  frees = [];
}

-- an array with no room for one more
abbrev full : Queue ℕ
full = record sample { max_size = 5; cells = 5 }

abbrev empty_queue : Queue ℕ
empty_queue = record sample { size = 0 }

-- the items of a run's queue, from the root on
abbrev items : ℕ → (ℕ → ℕ) → List ℕ
items zero f = []
items (suc n) f = f 1 ∷ items n (λ i. f (suc i))

abbrev outcome : Run (Status × Queue ℕ) → Option (Status × List ℕ)
outcome (ok (s, q)) = some (s, items q.size q.node)
outcome _ = none

init_test :
    init 10 (some spare)
    ≡ some (record { node = λ i. 0; block = 9; cells = 11; size = 0; max_size = 10; frees = [] })
unfolding init
init_test = refl

push_test : outcome (push ltb sample 0 none) ≡ some (sgx_ok, 0 ∷ 1 ∷ 2 ∷ 9 ∷ 5 ∷ [])
unfolding push
push_test = refl

push_grows : outcome (push ltb full 3 (some spare)) ≡ some (sgx_ok, 1 ∷ 3 ∷ 2 ∷ 9 ∷ 5 ∷ [])
unfolding push
push_grows = refl

pop_test : outcome (pop ltb sample none) ≡ some (sgx_ok, 5 ∷ 9 ∷ 2 ∷ [])
unfolding pop
pop_test = refl

clear_test : Returns (λ q. q.size ≡ 0) (clear ltb sample (λ i. none))
unfolding clear pop
clear_test = returns refl

sample-IsValid : IsValid sample
sample-IsValid = omega arith

full-IsValid : IsValid full
full-IsValid = omega arith

sample-IsHeap : IsHeap (λ n. n) sample
sample-IsHeap = grind arith

push_correct_example :
    Returns
      (λ (status, r). (status ≡ sgx_ok) × Pushed (λ n. n) sample 3 r)
      (push ltb sample 3 (some spare))
push_correct_example =
    push_correct ltb by_size sample 3 spare sample-IsValid sample-IsHeap (omega arith)

pop_correct_example :
    Returns (λ (status, r). Popped sample r × Refused {A = ℕ} status none) (pop ltb sample none)
pop_correct_example = pop_correct ltb by_size sample none sample-IsValid (omega arith)

sample-LeftOrder : LeftOrder sample.node sample.size
sample-LeftOrder = grind arith
