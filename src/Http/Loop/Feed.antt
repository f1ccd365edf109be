-- ===== src/Http/Loop/Feed.antt =====
-- A parser as a function of the bytes that it reads, apart from the ring buffer.
use sginx.Base.{ℕ, ◌+◌, ◌-◌, ◌%◌, ◌≡◌, refl, ◌∙◌, List, [], ◌∷◌, ◌++◌, ap, arith, length, All}
use sginx.Http.{Code, State, max_buf, Request, at, Step, go}
use sginx.Http.Loop.{step_request, after, after_congr, save, parse_loop, parse}

-- the ring holds these bytes from position `pos` on
abbrev pub Reads : (ℕ → ℕ) → ℕ → List ℕ → Type 0
Reads buf pos [] = Unit {0}
Reads buf pos (c ∷ cs) = (buf (pos % max_buf) ≡ c) × Reads buf (pos + 1) cs

-- a round leaves the ring alone
abbrev pub KeepsBuf : (State → ℕ → ℕ → Request → Step) → Type 0
KeepsBuf step = (s : State) (p c : ℕ) (r : Request) → (step_request (step s p c r)).buf ≡ r.buf

module _ (step : State → ℕ → ℕ → Request → Step) (finish : ℕ → Request → Code × Request) where
  unfoldable pub feed : List ℕ → State → ℕ → Request → Code × Request
  feed [] s pos r = save s pos r
  feed (c ∷ cs) s pos r =
      after (finish pos) (λ s' r'. feed cs s' (pos + 1) r') (step s (at pos) c r)

  -- with the bytes in the ring the loop computes what the bytes say
  pub loop-feed :
      (kept : KeepsBuf step) (cs : List ℕ) (s : State) (pos : ℕ) (r : Request)
      → Reads r.buf pos cs
      → parse_loop step finish (length cs) s pos r ≡ feed cs s pos r
  unfolding parse_loop feed
  loop-feed kept [] s pos r reads = refl
  loop-feed kept (c ∷ cs) s pos r reads =
      rw (reads.0, parse_loop)
        (after_congr (finish pos) _ _ (step s (at pos) c r) (λ s' r' same.
          let whole : r'.buf ≡ r.buf = same ∙ kept s (at pos) c r in
          loop-feed kept cs s' (pos + 1) r' (rw whole reads.1)))

  pub parse-feed :
      (kept : KeepsBuf step) (cs : List ℕ) (r : Request)
      → Reads r.buf r.pos cs
      → r.last ≡ r.pos + length cs
      → parse step finish r ≡ feed cs r.state r.pos r
  unfolding parse
  parse-feed kept cs r reads size =
      let rounds : r.last - r.pos ≡ length cs = omega arith in
      rw rounds (loop-feed kept cs r.state r.pos r reads)

  -- one byte that leads from a state to the next
  pub feed_byte :
      (c : ℕ) (rest : List ℕ) (s s' : State) (pos : ℕ) (r r' : Request)
      → step s (at pos) c r ≡ go s' r'
      → feed (c ∷ rest) s pos r ≡ feed rest s' (pos + 1) r'
  unfolding feed
  feed_byte c rest s s' pos r r' e = rw e

  -- bytes at which the state stays and nothing is written
  pub feed_stay :
      (s : State) (P : ℕ → Type 0)
      → ((p c : ℕ) (r : Request) → P c → step s p c r ≡ go s r)
      → (w rest : List ℕ) (pos : ℕ) (r : Request) → All P w
      → feed (w ++ rest) s pos r ≡ feed rest s (pos + length w) r
  feed_stay s P stays [] rest pos r all = ap (λ n. feed rest s n r) (omega arith)
  feed_stay s P stays (c ∷ w) rest pos r all =
      feed_byte c (w ++ rest) s s pos r r (stays (at pos) c r all.0)
      ∙ feed_stay s P stays w rest (pos + 1) r all.1
      ∙ ap (λ n. feed rest s n r) (omega arith)
