-- ===== src/Mini/Cgi/Ends.antt =====
-- The ends of the pipes in sgx_request_cgi of src/test/sgx_mini.c.
use sginx.Base.{
  ℕ, zero, suc, ◌+◌, ◌≡◌, ◌≢◌, ◌∙◌, refl, Bool, true, false, not, ◌||◌, Option, none, some, List,
  [], ◌∷◌, ◌++◌, ◌==◌, Bool-cases, inl, inr, arith, length, if◌then◌else◌,
}
use sginx.Base.Run.{Run, ok, Returns, returns, Returns-bind}
use sginx.Mini.Request.{same_word, post_word}
use sginx.Mini.Cgi.Loops.{skip_headers-returns, read_length-returns}
use sginx.Mini.Cgi.{
  po_read, po_write, pi_read, pi_write, Call, replied, made_po, made_pi, shut, sent, fed, fetched,
  waited, duplicated, executed, Forked, failed, parent, child, System, copy_body, copy_output,
  absent, rounds, fork_calls, pipe_calls, request_cgi,
}

-- which ends of the pipes are open
pub record Ends : Type 0 where
  pub po_r : Bool
  pub po_w : Bool
  pub pi_r : Bool
  pub pi_w : Bool

abbrev pub all_shut : Ends
all_shut = record { po_r = false; po_w = false; pi_r = false; pi_w = false }

abbrev when : Bool → Ends → Option Ends
when true e = some e
when false e = none

-- the ends behind a call; none for a pipe that is made over an open one, for an end that is closed
-- or used without being open
abbrev pub step : Call → Ends → Option Ends
step (replied status) e = some e
step made_po e = when (not (e.po_r || e.po_w)) (record e { po_r = true; po_w = true })
step made_pi e = when (not (e.pi_r || e.pi_w)) (record e { pi_r = true; pi_w = true })
step (shut po_read) e = when e.po_r (record e { po_r = false })
step (shut po_write) e = when e.po_w (record e { po_w = false })
step (shut pi_read) e = when e.pi_r (record e { pi_r = false })
step (shut pi_write) e = when e.pi_w (record e { pi_w = false })
step (sent bytes) e = some e
step (fed c) e = when e.pi_w e
step (fetched c) e = when e.po_r e
step waited e = some e
step (duplicated end fd) e = some e
step (executed path environ) e = some e

abbrev pub follow : List Call → Ends → Option Ends
follow [] e = some e
follow (c ∷ cs) e = elim (step c e) [ none ↦ none | some e' ↦ follow cs e' ]

-- the two ends that the parent uses
abbrev talking : Ends
talking = record { po_r = true; po_w = false; pi_r = false; pi_w = true }

follow-copy_body :
    (n sgx_c : ℕ) (bytes : List ℕ) (calls : List Call)
    → follow (copy_body n sgx_c bytes ++ calls) talking ≡ follow calls talking
unfolding copy_body
follow-copy_body zero sgx_c bytes calls = refl
follow-copy_body (suc n) sgx_c [] calls = follow-copy_body n sgx_c [] calls
follow-copy_body (suc n) sgx_c (b ∷ bytes) calls = follow-copy_body n b bytes calls

follow-copy_output :
    (bytes : List ℕ) (calls : List Call)
    → follow (copy_output bytes ++ calls) talking ≡ follow calls talking
unfolding copy_output
follow-copy_output [] calls = refl
follow-copy_output (b ∷ bytes) calls = follow-copy_output bytes calls

follow-body :
    (post : Bool) (n sgx_c : ℕ) (bytes : List ℕ) (calls : List Call)
    → follow ((if post then copy_body n sgx_c bytes else []) ++ calls) talking
      ≡ follow calls talking
follow-body true n sgx_c bytes calls = follow-copy_body n sgx_c bytes calls
follow-body false n sgx_c bytes calls = refl

abbrev pub Balanced : List Call → Type 0
Balanced calls = follow calls all_shut ≡ some all_shut

fork_calls-Balanced :
    (sys : System) (contlen : ℕ) (bytes type path : List ℕ) (query : Option (List ℕ)) (f : Forked)
    → f ≢ child
    → Returns
        (λ calls. Balanced (made_po ∷ made_pi ∷ calls))
        (fork_calls sys contlen bytes type path query f)
fork_calls-Balanced sys contlen bytes type path query failed not_child = returns refl
fork_calls-Balanced sys contlen bytes type path query child not_child = absurd (not_child refl)
fork_calls-Balanced sys contlen bytes type path query parent not_child =
    let last = shut po_read ∷ shut pi_write ∷ waited ∷ [] in
    returns (
      follow-body (same_word type post_word) (rounds contlen) sys.stale bytes
        (copy_output sys.output ++ last)
      ∙ follow-copy_output sys.output last)

pipe_calls-Balanced :
    (sys : System) (contlen : ℕ) (bytes type path : List ℕ) (query : Option (List ℕ))
    → sys.forked ≢ child
    → Returns Balanced (pipe_calls sys contlen bytes type path query)
pipe_calls-Balanced sys contlen bytes type path query not_child =
    let forks =
      Returns-bind (fork_calls-Balanced sys contlen bytes type path query sys.forked not_child)
        (λ calls balanced. returns balanced) in
    elim (Bool-cases sys.first_pipe) [
      | inr e ↦ rw e (returns refl)
      | inl e ↦ elim (Bool-cases sys.second_pipe) [
        | inr e' ↦ rw (e, e') (returns refl)
        | inl e' ↦ rw (e, e') forks
      ]
    ]

answer-Balanced :
    (b : Bool) (calls : Run (List Call))
    → Returns Balanced calls
    → Returns Balanced (if b then ok (replied 400 ∷ []) else calls)
answer-Balanced true calls balanced = returns refl
answer-Balanced false calls balanced = balanced

-- The last byte of sgx_buf is NUL before. Then sgx_request_cgi ends for whatever the connection
-- delivers, also when a pipe or fork fails; unless fork returns as the child, every end of a pipe
-- that has been opened is closed once, and none is used or closed that is not open.
pub request_cgi-Balanced :
    (sys : System) (bytes : List ℕ) (buf : ℕ → ℕ) (type path : List ℕ) (query : Option (List ℕ))
    → buf 1023 ≡ 0
    → sys.forked ≢ child
    → Returns
        (λ calls. follow calls all_shut ≡ some all_shut)
        (request_cgi sys bytes buf type path query)
unfolding request_cgi
request_cgi-Balanced sys bytes buf type path query nul not_child =
    elim (Bool-cases (same_word type post_word)) [
      | inr e ↦ rw e (
          Returns-bind (skip_headers-returns (length bytes + 1) bytes buf nul (omega arith))
            (λ left u. pipe_calls-Balanced sys absent left type path query not_child))
      | inl e ↦ rw e (
          Returns-bind (read_length-returns (length bytes + 1) bytes buf absent nul (omega arith))
            (λ (contlen, left) u.
              answer-Balanced (contlen == absent) _
                (pipe_calls-Balanced sys contlen left type path query not_child)))
    ]
