-- ===== src/Http/Headers/Resume.antt =====
-- The parser of the header fields may be called again when more bytes have come.
use sginx.Base.{
  zero, suc, ◌+◌, ◌-◌, ◌%◌, ◌<◌, ◌≢◌, ◌||◌, ◌==◌, sym, subst, ap, false, not, ℕ, ◌≤◌, ◌≡◌, refl,
  Bool, true, arith,
}
use sginx.Http.{
  Code, sgx_again, State, start, key, Request, at, max_buf, cr_char, lf_char, Step, go, stop, done,
}
use sginx.Http.Loop.{after, parse_loop}
use sginx.Http.Loop.Resume.{Alike, IsParser, map_step, stops_in_error, reframe, parse-resume}
use sginx.Http.Headers.{finish, header_step, is_start, request_body}

finish-Alike :
    (x : ℕ) (t : State) (l pos : ℕ) (r : Request)
    → Alike (finish pos (reframe x t l r)) (finish pos r)
finish-Alike x t l pos r = record { code = refl; fields = refl; place = λ e. (refl, refl) }

-- the parser asks for more bytes in another state than the first
abbrev Waits : Code × Request → Type 0
Waits o = o.0 ≡ sgx_again → is_start o.1.state ≡ false

abbrev stays : Step → Bool
stays (go s r) = not (is_start s)
stays (stop code r) = true
stays (done r) = true

after-Waits :
    (end : Request → Code × Request) (next : State → Request → Code × Request)
    → ((r : Request) → (end r).0 ≢ sgx_again)
    → ((s : State) (r : Request) → is_start s ≡ false → Waits (next s r))
    → (st : Step) → stays st ≡ true
    → stops_in_error st ≡ true
    → Waits (after end next st)
after-Waits end next ends later (go s r) e error again = later s r (ground (arith, e)) again
after-Waits end next ends later (stop code r) e error again = absurd (ground (arith, error, again))
after-Waits end next ends later (done r) e error again = absurd (ends r again)

module _ (alloc : ℕ → Bool) where
  header_step-framed :
      (x : ℕ) (t : State) (l : ℕ) (s : State) (p c : ℕ) (r : Request)
      → header_step alloc s p c (reframe x t l r)
        ≡ map_step (reframe x t l) (header_step alloc s p c r)
  unfolding header_step
  header_step-framed x t l start p c r = ground arith
  header_step-framed x t l _ p c r = ground arith

  header_step-errors :
      (s : State) (p c : ℕ) (r : Request) → stops_in_error (header_step alloc s p c r) ≡ true
  unfolding header_step
  header_step-errors start p c r = ground arith
  header_step-errors _ p c r = ground arith

  header-IsParser : IsParser (header_step alloc) finish
  header-IsParser = record {
    framed = header_step-framed;
    errors = header_step-errors;
    finished = finish-Alike;
    finish-ok = λ pos r. refl;
  }

  -- a round that goes on does not go back to the first state
  header_step-stays :
      (s : State) (p c : ℕ) (r : Request)
      → is_start s ≡ false
      → stays (header_step alloc s p c r) ≡ true
  unfolding header_step
  header_step-stays start p c r later = absurd (ground (arith, later))
  header_step-stays _ p c r later = ground arith

  header_loop-stays :
      (k : ℕ) (s : State) (pos : ℕ) (r : Request)
      → is_start s ≡ false
      → Waits (parse_loop (header_step alloc) finish k s pos r)
  unfolding parse_loop
  header_loop-stays zero s pos r later = λ again. later
  header_loop-stays (suc k) s pos r later =
      after-Waits (finish pos) (λ s' r'. parse_loop (header_step alloc) finish k s' (pos + 1) r')
        (λ r' e. ground (arith, e)) (λ s' r' later'. header_loop-stays k s' (pos + 1) r' later')
        (header_step alloc s (at pos) (r.buf (pos % max_buf)) r)
        (header_step-stays s (at pos) (r.buf (pos % max_buf)) r later)
        (header_step-errors s (at pos) (r.buf (pos % max_buf)) r)

  -- a byte of a name leaves the first state
  header_loop-enters :
      (k pos : ℕ) (r : Request)
      → 0 < k
      → (r.buf (pos % max_buf) == cr_char || r.buf (pos % max_buf) == lf_char) ≡ false
      → Waits (parse_loop (header_step alloc) finish k start pos r)
  unfolding parse_loop header_step
  header_loop-enters zero pos r more name = absurd (omega arith)
  header_loop-enters (suc k) pos r more name = rw name (header_loop-stays k key (pos + 1) _ refl)

  -- The header fields may come in two parts: when the parser asks for more bytes after the first,
  -- its second call ends like one call with all of them, with the same code and the same fields. What
  -- is logged is not the same: one call that starts in the state 0 logs nothing; but if the first part
  -- then begins with a byte other than CR and LF, the second call logs "state should be 0". Whenever
  -- the first call logs it, so does the second.
  pub request_body-resume :
      (r : Request) (mid end : ℕ)
      → r.pos ≤ mid
      → mid ≤ end
      → (request_body alloc (record r { last = mid })).1.0 ≡ sgx_again
      → let first = request_body alloc (record r { last = mid }) in
        let second = request_body alloc (record first.1.1 { last = end }) in
        let whole = request_body alloc (record r { last = end }) in
        Alike second.1 whole.1
        × (r.state ≡ start → whole.0 ≡ false)
        × (r.state ≡ start
            → r.pos < mid
            → (r.buf (r.pos % max_buf) == 13 || r.buf (r.pos % max_buf) == 10) ≡ false
            → second.0 ≡ true)
        × (first.0 ≡ true → second.0 ≡ true)
  unfolding request_body
  request_body-resume r mid end le le' again =
      let loop = λ (s : State).
        parse_loop (header_step alloc) finish (mid - r.pos) s r.pos (record r { last = mid }) in
      (
        parse-resume (header_step alloc) finish header-IsParser r mid end le le' again,
        (λ e. rw e refl),
        (λ e more name. ap not (
            subst (λ s. Waits (loop s)) (sym e)
              (header_loop-enters (mid - r.pos) r.pos (record r { last = mid }) (omega arith) name)
              again)),
        (λ logged. ap not (
            header_loop-stays (mid - r.pos) r.state r.pos (record r { last = mid })
              (ground (arith, logged)) again)),
      )
