-- ===== src/EventLoop/Handlers.antt =====
-- What the handlers of due timers do in a round of the event loop: sgx_http_close_conn of
-- src/http/http_request.c closes the descriptor of a request and frees the request.
use sginx.Base.{
  ℕ, ◌≡◌, ◌∙◌, ap, refl, Bool, true, false, not, ◌&&◌, some, List, [], ◌∷◌, ◌++◌, All, arith, ◌==◌,
  if◌then◌else◌,
}
use sginx.Base.Run.{ok, fault, ◌>>=◌}
use sginx.Http.Handle.{is_freed, close_conn}
use sginx.Timer.{Node, Call}
use sginx.Timer.Expire.{IsDue}
use sginx.EventLoop.{Loop, perform_call, perform_calls}

-- the requests of the calls, and the descriptors of requests
abbrev pub requests : List Call → List ℕ
requests [] = []
requests (c ∷ calls) = c.request ∷ requests calls

abbrev pub descriptors : (ℕ → ℕ) → List ℕ → List ℕ
descriptors fd_of [] = []
descriptors fd_of (p ∷ ps) = fd_of p ∷ descriptors fd_of ps

-- no request is freed that already was, when these are freed, the latest first
abbrev pub frees_once : (old : List ℕ) → List ℕ → Bool
frees_once old [] = true
frees_once old (p ∷ ps) = not (is_freed (ps ++ old) p) && frees_once old ps

-- the loop behind the handlers
abbrev pub closes : Loop → List ℕ → Loop
closes s ps = record s { closed = descriptors s.fd_of ps ++ s.closed; freed = ps ++ s.freed }

perform_call-closes :
    (close_at : ℕ) (c : Call) (ps : List ℕ) (s : Loop) (gone once : Bool)
    → c.handler ≡ close_at
    → is_freed (ps ++ s.freed) c.request ≡ gone
    → ((if once then ok (closes s ps) else fault) >>= λ u. perform_call close_at c u)
      ≡ (if not gone && once then ok (closes s (c.request ∷ ps)) else fault)
unfolding close_conn
perform_call-closes close_at c ps s gone false here e = ground arith
perform_call-closes close_at c ps s true true here e =
    let same : (c.handler == close_at) ≡ true = ground (arith, here) in rw (same, e) refl
perform_call-closes close_at c ps s false true here e =
    let same : (c.handler == close_at) ≡ true = ground (arith, here) in rw (same, e) refl

pub perform_calls-closes :
    (close_at : ℕ) (calls : List Call) (s : Loop)
    → All (λ (c : Call). c.handler ≡ close_at) calls
    → perform_calls close_at calls s
      ≡ (if frees_once s.freed (requests calls) then ok (closes s (requests calls)) else fault)
unfolding perform_calls
perform_calls-closes close_at [] s here = refl
perform_calls-closes close_at (c ∷ calls) s here =
    ap (λ r. r >>= λ u. perform_call close_at c u) (perform_calls-closes close_at calls s here.1)
    ∙ perform_call-closes close_at c (requests calls) s _ (frees_once s.freed (requests calls))
        here.0 refl

-- what was due was called with the handler of its timer
pub due-handlers :
    (close_at : ℕ) (node : ℕ → Node) (fired : List Call)
    → ((a h : ℕ) → (node a).handler ≡ some h → h ≡ close_at)
    → All (IsDue node) fired
    → All (λ (c : Call). c.handler ≡ close_at) fired
due-handlers close_at node [] all due = tt
due-handlers close_at node (c ∷ fired) all due =
    (all c.timer c.handler due.0.handler, due-handlers close_at node fired all due.1)
