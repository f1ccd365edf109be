-- ===== src/Http/Loop.antt =====
-- The loop that both parsers of src/http/http_parse.c are: `while(pos < request -> last)`, one
-- switch over the state for each byte, SGX_AGAIN behind the loop, and the label `done`.
pub mod Early
pub mod Feed
pub mod Resume
use sginx.Base.{ℕ, zero, suc, ◌+◌, ◌-◌, ◌%◌, ◌≡◌, refl}
use sginx.Http.{Code, sgx_ok, sgx_again, State, max_buf, Request, at, Step, go, stop, done}

abbrev pub step_request : Step → Request
step_request (go s r) = r
step_request (stop code r) = r
step_request (done r) = r

-- what follows a round: the next one, the return of a code, or the label `done`
abbrev pub after :
    (Request → Code × Request) → (State → Request → Code × Request) → Step → Code × Request
after finish next (go s r) = next s r
after finish next (stop code r) = (code, r)
after finish next (done r) = finish r

-- the rounds that follow may be computed in another way, as long as the ring is the same
pub after_congr :
    (finish : Request → Code × Request) (f g : State → Request → Code × Request) (step : Step)
    → ((s : State) (r : Request) → r.buf ≡ (step_request step).buf → f s r ≡ g s r)
    → after finish f step ≡ after finish g step
after_congr finish f g (go s r) same = same s r refl
after_congr finish f g (stop code r) same = refl
after_congr finish f g (done r) same = refl

-- the return of SGX_AGAIN at the end of the bytes
abbrev pub save : State → ℕ → Request → Code × Request
save s pos r = (sgx_again, record r { pos = pos; state = s })

module _ (step : State → ℕ → ℕ → Request → Step) (finish : ℕ → Request → Code × Request) where
  -- the loop, with the rounds that are left
  unfoldable pub parse_loop : ℕ → State → ℕ → Request → Code × Request
  parse_loop zero s pos r = save s pos r
  parse_loop (suc k) s pos r =
      after (finish pos) (λ s' r'. parse_loop k s' (pos + 1) r')
        (step s (at pos) (r.buf (pos % max_buf)) r)

  -- a parser is called on a request
  unfoldable pub parse : Request → Code × Request
  unfolding parse_loop
  parse r = parse_loop (r.last - r.pos) r.state r.pos r
