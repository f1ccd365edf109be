-- ===== src/Http/Loop/Early.antt =====
-- A parser that has ended before the last byte: the bytes behind do not matter.
use sginx.Base.{ℕ, zero, suc, ◌+◌, ◌-◌, ◌%◌, ◌≤◌, ◌≡◌, ◌≢◌, refl, ◌∙◌, List, arith, length}
use sginx.Http.{Code, sgx_again, State, max_buf, Request, at, Step, go, stop, done}
use sginx.Http.Loop.{after, parse_loop, parse}
use sginx.Http.Loop.Feed.{KeepsBuf, Reads, feed, loop-feed}

module _ (step : State → ℕ → ℕ → Request → Step) (finish : ℕ → Request → Code × Request) where
  after-early :
      (k j pos : ℕ) (turn : Step)
      → ((s : State) (r : Request)
          → (parse_loop step finish k s pos r).0 ≢ sgx_again
          → parse_loop step finish (k + j) s pos r ≡ parse_loop step finish k s pos r)
      → (past : ℕ)
      → (after (finish past) (λ s r. parse_loop step finish k s pos r) turn).0 ≢ sgx_again
      → after (finish past) (λ s r. parse_loop step finish (k + j) s pos r) turn
        ≡ after (finish past) (λ s r. parse_loop step finish k s pos r) turn
  after-early k j pos (go s r) ih past ended = ih s r ended
  after-early k j pos (stop code r) ih past ended = refl
  after-early k j pos (done r) ih past ended = refl

  -- more rounds change nothing when the parser does not ask for more
  pub loop-early :
      (k j : ℕ) (s : State) (pos : ℕ) (r : Request)
      → (parse_loop step finish k s pos r).0 ≢ sgx_again
      → parse_loop step finish (k + j) s pos r ≡ parse_loop step finish k s pos r
  unfolding parse_loop
  loop-early zero j s pos r ended = absurd (ended refl)
  loop-early (suc k) j s pos r ended =
      let rounds : suc k + j ≡ suc (k + j) = omega arith in
      rw (rounds, parse_loop)
        (after-early k j (pos + 1) (step s (at pos) (r.buf (pos % max_buf)) r)
          (λ s' r'. loop-early k j s' (pos + 1) r') pos ended)

  -- a parser that ends with these bytes ends with them whatever follows
  pub parse-early :
      (kept : KeepsBuf step) (cs : List ℕ) (r : Request)
      → Reads r.buf r.pos cs
      → r.pos + length cs ≤ r.last
      → (feed step finish cs r.state r.pos r).0 ≢ sgx_again
      → parse step finish r ≡ feed step finish cs r.state r.pos r
  unfolding parse
  parse-early kept cs r reads size ended =
      let fed = loop-feed step finish kept cs r.state r.pos r reads in
      let rounds : r.last - r.pos ≡ length cs + (r.last - r.pos - length cs) = omega arith in
      rw rounds
        (loop-early (length cs) (r.last - r.pos - length cs) r.state r.pos r (rw fed ended) ∙ fed)
