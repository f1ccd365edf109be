-- ===== src/Http/Loop/Resume.antt =====
-- A parser that returned SGX_AGAIN and is called again when more bytes are there.
use sginx.Base.{
  ℕ, zero, suc, ◌+◌, ◌-◌, ◌%◌, ◌≤◌, ◌≡◌, ◌⊎◌, refl, ◌∙◌, sym, Bool, true, false, arith,
}
use sginx.Http.{Code, sgx_ok, sgx_again, State, start, max_buf, Request, at, Step, go, stop, done}
use sginx.Http.Loop.{after, parse_loop, parse}

-- the request with another position, state and end
abbrev pub reframe : ℕ → State → ℕ → Request → Request
reframe x s l r = record r { pos = x; state = s; last = l }

abbrev pub map_step : (Request → Request) → Step → Step
map_step f (go s r) = go s (f r)
map_step f (stop code r) = stop code (f r)
map_step f (done r) = done (f r)

abbrev pub is_error : Code → Bool
is_error sgx_ok = false
is_error sgx_again = false
is_error code = true

-- a round that returns, returns an error
abbrev pub stops_in_error : Step → Bool
stops_in_error (go s r) = true
stops_in_error (stop code r) = is_error code
stops_in_error (done r) = true

-- Two runs end alike: with the same code and the same fields, apart from `last`. On an error the
-- position and the state are those from before the call, and may differ.
pub record Alike (a b : Code × Request) : Type 0 where
  pub code : a.0 ≡ b.0
  pub fields : reframe 0 start 0 a.1 ≡ reframe 0 start 0 b.1
  pub place : (b.0 ≡ sgx_ok) ⊎ (b.0 ≡ sgx_again) → (a.1.pos ≡ b.1.pos) × (a.1.state ≡ b.1.state)

Alike-trans : (a b c : Code × Request) → Alike a b → Alike b c → Alike a c
Alike-trans a b c p q = record {
  code = p.code ∙ q.code;
  fields = p.fields ∙ q.fields;
  place = λ e.
      let left = p.place (rw q.code e) in
      let right = q.place e in (left.0 ∙ right.0, left.1 ∙ right.1);
}

Alike-sym : (a b : Code × Request) → Alike a b → Alike b a
Alike-sym a b p = record {
  code = sym p.code;
  fields = sym p.fields;
  place = λ e. let same = p.place (rw (← p.code) e) in (sym same.0, sym same.1);
}

-- what a parser's switch and its label `done` must do: they neither read nor write the position,
-- the state and the end in the request, and what a round returns is an error
pub record IsParser (step : State → ℕ → ℕ → Request → Step) (finish : ℕ → Request → Code × Request)
    : Type 0 where
  pub framed :
      (x : ℕ) (t : State) (l : ℕ) (s : State) (p c : ℕ) (r : Request)
      → step s p c (reframe x t l r) ≡ map_step (reframe x t l) (step s p c r)
  pub errors : (s : State) (p c : ℕ) (r : Request) → stops_in_error (step s p c r) ≡ true
  pub finished :
      (x : ℕ) (t : State) (l pos : ℕ) (r : Request)
      → Alike (finish pos (reframe x t l r)) (finish pos r)
  pub finish-ok : (pos : ℕ) (r : Request) → (finish pos r).0 ≡ sgx_ok

module _ (step : State → ℕ → ℕ → Request → Step) (finish : ℕ → Request → Code × Request)
    (parser : IsParser step finish) where
  abbrev loop : ℕ → State → ℕ → Request → Code × Request
  loop = parse_loop step finish

  after-framed :
      (k x : ℕ) (t : State) (l pos : ℕ)
      → ((s : State) (r : Request)
          → Alike (loop k s (pos + 1) (reframe x t l r)) (loop k s (pos + 1) r))
      → (st : Step) → stops_in_error st ≡ true
      → Alike
          (after (finish pos) (λ s r. loop k s (pos + 1) r) (map_step (reframe x t l) st))
          (after (finish pos) (λ s r. loop k s (pos + 1) r) st)
  after-framed k x t l pos ih (go s r) e = ih s r
  after-framed k x t l pos ih (stop code r) e = record {
    code = refl;
    fields = refl;
    place = λ c. absurd (ground (arith, c));
  }
  after-framed k x t l pos ih (done r) e = parser.finished x t l pos r

  loop-framed :
      (k x : ℕ) (t : State) (l : ℕ) (s : State) (pos : ℕ) (r : Request)
      → Alike (loop k s pos (reframe x t l r)) (loop k s pos r)
  unfolding parse_loop
  loop-framed zero x t l s pos r = record { code = refl; fields = refl; place = λ e. (refl, refl) }
  loop-framed (suc k) x t l s pos r =
      rw (parser.framed x t l s (at pos) (r.buf (pos % max_buf)) r) (
        after-framed k x t l pos (λ s' r'. loop-framed k x t l s' (pos + 1) r')
          (step s (at pos) (r.buf (pos % max_buf)) r)
          (parser.errors s (at pos) (r.buf (pos % max_buf)) r))

  -- a first run of `k` rounds that ended with SGX_AGAIN, then the other rounds of `n`
  abbrev Continues : ℕ → ℕ → ℕ → Code × Request → Code × Request → Type 0
  Continues k n pos first whole =
      first.0 ≡ sgx_again
      → (m : ℕ) → k + m ≡ n
      → Alike (loop m first.1.state first.1.pos first.1) whole × (first.1.pos ≡ pos + k)

  after-Continues :
      (k n pos : ℕ)
      → ((s : State) (r : Request)
          → Continues k n (pos + 1) (loop k s (pos + 1) r) (loop n s (pos + 1) r))
      → (st : Step) → stops_in_error st ≡ true
      → Continues
          (suc k)
          (suc n)
          pos
          (after (finish pos) (λ s r. loop k s (pos + 1) r) st)
          (after (finish pos) (λ s r. loop n s (pos + 1) r) st)
  after-Continues k n pos ih (go s r) e again m sum =
      let (alike, place) = ih s r again m (omega arith) in (alike, omega arith)
  after-Continues k n pos ih (stop code r) e again m sum = absurd (ground arith)
  after-Continues k n pos ih (done r) e again m sum =
      absurd (ground (arith, parser.finish-ok pos r))

  loop-Continues :
      (k n : ℕ) (s : State) (pos : ℕ) (r : Request)
      → Continues k n pos (loop k s pos r) (loop n s pos r)
  unfolding parse_loop
  loop-Continues zero n s pos r again m sum =
      let e : m ≡ n = omega arith in rw e (loop-framed n pos s r.last s pos r, omega arith)
  loop-Continues (suc k) zero s pos r again m sum = absurd (omega arith)
  loop-Continues (suc k) (suc n) s pos r again m sum =
      after-Continues k n pos (λ s' r'. loop-Continues k n s' (pos + 1) r')
        (step s (at pos) (r.buf (pos % max_buf)) r)
        (parser.errors s (at pos) (r.buf (pos % max_buf)) r) again m sum

  -- The caller may hand over the bytes in two parts: if the parser asks for more at `mid`, then
  -- the second call, up to `end`, ends like one call with all the bytes.
  pub parse-resume :
      (r : Request) (mid end : ℕ)
      → r.pos ≤ mid
      → mid ≤ end
      → (parse step finish (record r { last = mid })).0 ≡ sgx_again
      → Alike
          (parse step finish
            (record (parse step finish (record r { last = mid })).1 { last = end }))
          (parse step finish (record r { last = end }))
  unfolding parse
  parse-resume r mid end low high again =
      let k = mid - r.pos in
      let n = end - r.pos in
      let first = loop k r.state r.pos (record r { last = mid }) in
      let (second, place) =
        loop-Continues k n r.state r.pos (record r { last = mid }) again (end - mid)
          (omega arith) in
      let rounds : end - first.1.pos ≡ end - mid = omega arith in
      let framed =
        loop-framed (end - mid) first.1.pos first.1.state end first.1.state first.1.pos first.1 in
      rw rounds (
        Alike-trans _ _ _ framed (
          Alike-trans _ _ _ second (
            Alike-trans _ _ _ (loop-framed n r.pos r.state mid r.state r.pos r)
              (Alike-sym _ _ (loop-framed n r.pos r.state end r.state r.pos r)))))
