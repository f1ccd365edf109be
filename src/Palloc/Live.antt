-- ===== src/Palloc/Live.antt =====
-- The large blocks of a pool of src/core/sgx_palloc.c, counted.
use sginx.Base.{
  ℕ, ◌+◌, ◌≡◌, ◌∙◌, refl, Bool, true, false, Option, none, some, List, [], ◌∷◌, arith, ◌==◌,
  if◌then◌else◌, ltb,
}
use sginx.Palloc.{Pool, Large, Cleanup, Handler, Call, freed, zeroed, handled}
use sginx.Palloc.Alloc.{reuse, take_out, same_pointer}
use sginx.Palloc.Release.{
  free_alloc, free_large, free_blocks, call_handler, run_cleanups, destroy_pool,
}

-- how often the address is in the list
abbrev pub times : ℕ → List ℕ → ℕ
times x [] = 0
times x (a ∷ rest) = (if a == x then 1 else 0) + times x rest

-- how often the block at the address has been freed
abbrev pub frees : ℕ → List Call → ℕ
frees x [] = 0
frees x (freed (some a) ∷ calls) = (if a == x then 1 else 0) + frees x calls
frees x (freed none ∷ calls) = frees x calls
frees x (zeroed p size ∷ calls) = frees x calls
frees x (handled h p ∷ calls) = frees x calls

abbrev pub held : Option ℕ → List ℕ → List ℕ
held none rest = rest
held (some a) rest = a ∷ rest

-- the blocks that the entries hold
abbrev pub live : List Large → List ℕ
live [] = []
live (l ∷ large) = held l.alloc (live large)

-- all the addresses but the last
abbrev pub all_but_last : ℕ → List ℕ → List ℕ
all_but_last now [] = []
all_but_last now (next ∷ more) = now ∷ all_but_last next more

times-held :
    (x : ℕ) (o : Option ℕ) (rest : List ℕ)
    → times x (held o rest) ≡ times x (held o []) + times x rest
times-held x none rest = omega arith
times-held x (some a) rest = omega arith

abbrev pub Reused : ℕ → List Large → Option (List Large) → Type 0
Reused now large none = Unit
Reused now large (some large') = (x : ℕ) → times x (live large') ≡ times x (now ∷ live large)

reuse-rest :
    (now at a : ℕ) (large : List Large) (b : Bool) (rest : Option (List Large))
    → Reused now large rest
    → let l : Large = record { at = at; alloc = some a } in
      Reused now (l ∷ large) (if b then none else elim rest [ none ↦ none | some r ↦ some (l ∷ r) ])
reuse-rest now at a large true rest h = tt
reuse-rest now at a large false none h = tt
reuse-rest now at a large false (some r) h = λ x. omega (arith, h x)

reuse-cons :
    (now cnt at : ℕ) (o : Option ℕ) (large : List Large)
    → Reused now large (reuse now (cnt + 1) large)
    → let l : Large = record { at = at; alloc = o } in
      Reused now (l ∷ large) (reuse now cnt (l ∷ large))
unfolding reuse
reuse-cons now cnt at none large h = λ x. refl
reuse-cons now cnt at (some a) large h = reuse-rest now at a large (ltb 3 (cnt + 1)) _ h

pub reuse-Reused : (now cnt : ℕ) (large : List Large) → Reused now large (reuse now cnt large)
unfolding reuse
reuse-Reused now cnt [] = tt
reuse-Reused now cnt (l ∷ large) =
    reuse-cons now cnt l.at l.alloc large (reuse-Reused now (cnt + 1) large)

abbrev pub TakenOut : Option ℕ → List Large → Option (List Large) → Type 0
TakenOut p large none = (x : ℕ) → times x (held p []) ≡ 1 → times x (live large) ≡ 0
TakenOut p large (some large') =
    (x : ℕ) → times x (live large) ≡ times x (held p []) + times x (live large')

same_pointer-times :
    (x : ℕ) (p o : Option ℕ) → same_pointer p o ≡ true → times x (held o []) ≡ times x (held p [])
same_pointer-times x none none e = refl
same_pointer-times x (some a) (some b) e = ground (arith, e)
same_pointer-times x none (some b) e = ground (arith, e)
same_pointer-times x (some a) none e = ground (arith, e)

other_pointer-times :
    (x : ℕ) (p o : Option ℕ)
    → same_pointer p o ≡ false
    → times x (held p []) ≡ 1
    → times x (held o []) ≡ 0
other_pointer-times x p none e h = refl
other_pointer-times x none (some b) e h = ground (arith, h)
other_pointer-times x (some a) (some b) e h = ground (arith, e, h)

take_out-cons :
    (p : Option ℕ) (at : ℕ) (o : Option ℕ) (large : List Large) (b : Bool)
    (rest : Option (List Large))
    → same_pointer p o ≡ b
    → TakenOut p large rest
    → let l : Large = record { at = at; alloc = o } in
      TakenOut p (l ∷ large) (
        if b
        then some (record { at = at; alloc = none } ∷ large)
        else elim rest [ none ↦ none | some r ↦ some (l ∷ r) ])
take_out-cons p at o large true rest e h =
    λ x. omega (arith, times-held x o (live large), same_pointer-times x p o e)
take_out-cons p at o large false none e h =
    λ x one. omega (arith, times-held x o (live large), other_pointer-times x p o e one, h x one)
take_out-cons p at o large false (some r) e h =
    λ x. omega (arith, times-held x o (live large), times-held x o (live r), h x)

pub take_out-TakenOut : (p : Option ℕ) (large : List Large) → TakenOut p large (take_out p large)
unfolding take_out
take_out-TakenOut p [] = λ x e. refl
take_out-TakenOut p (l ∷ large) =
    take_out-cons p l.at l.alloc large _ _ refl (take_out-TakenOut p large)

frees-free_alloc :
    (x : ℕ) (o : Option ℕ) (calls : List Call)
    → frees x (free_alloc o calls) ≡ frees x calls + times x (held o [])
frees-free_alloc x none calls = omega arith
frees-free_alloc x (some a) calls = omega arith

pub frees-free_large :
    (x : ℕ) (large : List Large) (calls : List Call)
    → frees x (free_large large calls) ≡ frees x calls + times x (live large)
frees-free_large x [] calls = omega arith
frees-free_large x (l ∷ large) calls = omega (
  arith,
  frees-free_large x large (free_alloc l.alloc calls),
  frees-free_alloc x l.alloc calls,
  times-held x l.alloc (live large),
)

frees-free_blocks :
    (x now : ℕ) (more : List ℕ) (calls : List Call)
    → frees x (free_blocks now more calls) ≡ frees x calls + times x (all_but_last now more)
frees-free_blocks x now [] calls = omega arith
frees-free_blocks x now (next ∷ more) calls =
    omega (arith, frees-free_blocks x next more (freed (some now) ∷ calls))

frees-call :
    (x : ℕ) (h : Option Handler) (argument : Option ℕ) (calls : List Call)
    → frees x (elim h [ none ↦ calls | some f ↦ handled f argument ∷ calls ]) ≡ frees x calls
frees-call x none argument calls = refl
frees-call x (some f) argument calls = refl

frees-run_cleanups :
    (x : ℕ) (cleanup : List Cleanup) (calls : List Call)
    → frees x (run_cleanups cleanup calls) ≡ frees x calls
frees-run_cleanups x [] calls = refl
frees-run_cleanups x (c ∷ cleanup) calls =
    frees-run_cleanups x cleanup (call_handler c calls) ∙ frees-call x c.handler c.argument calls

-- What is freed while a pool is destroyed.
pub frees-destroy_pool :
    (x : ℕ) (debug : Bool) (pool : Pool)
    → frees x (destroy_pool debug pool)
      ≡ frees x pool.calls + times x (live pool.large) + times x (all_but_last pool.self pool.more)
unfolding destroy_pool
frees-destroy_pool x true pool = omega (
  arith,
  frees-free_blocks x pool.self pool.more
      (free_large pool.large (run_cleanups pool.cleanup pool.calls)),
  frees-free_large x pool.large (run_cleanups pool.cleanup pool.calls),
  frees-run_cleanups x pool.cleanup pool.calls,
)
frees-destroy_pool x false pool = omega (
  arith,
  frees-free_blocks x pool.self pool.more (free_large pool.large pool.calls),
  frees-free_large x pool.large pool.calls,
)
