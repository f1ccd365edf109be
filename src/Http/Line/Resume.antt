-- ===== src/Http/Line/Resume.antt =====
-- The request line's parser may be called again when more bytes have come.
use sginx.Base.{ℕ, ◌≤◌, ◌≡◌, refl, true, arith}
use sginx.Http.{sgx_again, State, start, Request}
use sginx.Http.Loop.Resume.{Alike, IsParser, map_step, stops_in_error, reframe, parse-resume}
use sginx.Http.Line.{finish, line_step, parse_request_line}

finish-Alike :
    (x : ℕ) (t : State) (l pos : ℕ) (r : Request)
    → Alike (finish pos (reframe x t l r)) (finish pos r)
finish-Alike x t l pos r = record { code = refl; fields = refl; place = λ e. (refl, refl) }

module _ (shift_z : ℕ → ℕ) where
  line_step-framed :
      (x : ℕ) (t : State) (l : ℕ) (s : State) (p c : ℕ) (r : Request)
      → line_step shift_z s p c (reframe x t l r)
        ≡ map_step (reframe x t l) (line_step shift_z s p c r)
  unfolding line_step
  line_step-framed x t l start p c r = ground arith
  line_step-framed x t l _ p c r = ground arith

  line_step-errors :
      (s : State) (p c : ℕ) (r : Request) → stops_in_error (line_step shift_z s p c r) ≡ true
  unfolding line_step
  line_step-errors start p c r = ground arith
  line_step-errors _ p c r = ground arith

  line-IsParser : IsParser (line_step shift_z) finish
  line-IsParser = record {
    framed = line_step-framed;
    errors = line_step-errors;
    finished = finish-Alike;
    finish-ok = λ pos r. refl;
  }

  -- The request line may come in two parts: when the parser asks for more bytes after the first,
  -- its second call ends like one call with all of them, with the same code and the same fields.
  pub request_line-resume :
      (r : Request) (mid end : ℕ)
      → r.pos ≤ mid
      → mid ≤ end
      → (parse_request_line shift_z (record r { last = mid })).0 ≡ sgx_again
      → Alike
          (parse_request_line shift_z
            (record (parse_request_line shift_z (record r { last = mid })).1 { last = end }))
          (parse_request_line shift_z (record r { last = end }))
  unfolding parse_request_line
  request_line-resume = parse-resume (line_step shift_z) finish line-IsParser
