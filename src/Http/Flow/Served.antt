-- ===== src/Http/Flow/Served.antt =====
-- A whole request: it is read, its line and its fields are parsed, and the fields are handled.
use sginx.Base.{
  ℕ, suc, ◌+◌, ◌^◌, ◌%◌, ◌≤◌, ◌<◌, ◌≡◌, refl, sym, subst, ap, ◌∙◌, Bool, true, false, ◌||◌, Option,
  some, List, [], ◌∷◌, ◌++◌, arith, length, length-append, All, if◌then◌else◌,
}
use sginx.Base.Run.{ok, Returns, Returns-map}
use sginx.Timer.{Timers, Time}
use sginx.Http.{sgx_ok, start, Request}
use sginx.Http.Loop.Feed.{Reads}
use sginx.Http.Line.{parse_request_line}
use sginx.Http.Line.Segments.{ShiftsOut}
use sginx.Http.Line.Accept.{
  RequestLine, IsRequestLine, line_text, end_text, version_text, version_stop, parsed,
  parse-accepts,
}
use sginx.Http.Headers.{parse_request_body}
use sginx.Http.Headers.Accept.{
  Field, IsField, block_text, block_stop, with_field, field_stop, with_fields, parse-accepts_fields,
}
use sginx.Http.Handle.{Out, handle_header}
use sginx.Http.Handle.Fields.{IsPlaced, asks_keep_alive, any_of, answered, handle_header_exact}
use sginx.Http.ReadLoop.{drained, request_run}
use sginx.Http.ReadLoop.Ring.{HasRoom, Holds}
use sginx.Http.ReadLoop.Rounds.{AreReads, answers_of, joined, request_run_correct}
use sginx.Http.Flow.Texts.{some_field_asks, Reads-append, headers_ask, fields-IsPlaced}

Holds-Reads : (buf : ℕ → ℕ) (p : ℕ) (cs : List ℕ) → Holds buf p cs → Reads buf p cs
Holds-Reads buf p [] holds = tt
Holds-Reads buf p (c ∷ cs) holds =
    let here : p + 0 ≡ p = omega arith in
    (
      ap (λ q. buf (q % 8124)) (sym here) ∙ holds 0 (omega arith),
      Holds-Reads buf (p + 1) cs (λ k lt.
          let there : p + 1 + k ≡ p + suc k = omega arith in
          ap (λ q. buf (q % 8124)) there ∙ holds (suc k) (omega arith)),
    )

version_stop_lem :
    (l : RequestLine) (pos : ℕ) → version_stop l pos + 1 + 1 ≡ pos + length (line_text l)
version_stop_lem l pos = omega (
  arith,
  length-append l.method_tail (32 ∷ (47 ∷ (l.path ++ 32 ∷ version_text l))),
  length-append l.path (32 ∷ version_text l),
  length-append l.minor_tail end_text,
)

-- the request behind both parsers
abbrev pub fields_parsed : RequestLine → List Field → Request → Request
fields_parsed l fs r = record (with_fields fs (parsed l r).pos (parsed l r)) {
  pos = block_stop fs (parsed l r).pos;
  state = start;
}

with_fields-buf : (fs : List Field) (pos : ℕ) (q : Request) → (with_fields fs pos q).buf ≡ q.buf
with_fields-buf [] pos q = refl
with_fields-buf (f ∷ fs) pos q = with_fields-buf fs (field_stop f pos) (with_field f pos q)

or_false : (b : Bool) → b || false ≡ b
or_false true = refl
or_false false = refl

module _ (shift_z : ℕ → ℕ) (alloc : ℕ → Bool) (client_time : (ℕ → ℕ) → Option ℕ) where
  -- what the stages make of the bytes in the ring
  pub record IsServed (l : RequestLine) (fs : List Field) (out : Out) (r : Request) : Type 0 where
    pub line : parse_request_line shift_z r ≡ (sgx_ok, parsed l r)
    pub fields : parse_request_body alloc (parsed l r) ≡ (sgx_ok, fields_parsed l fs r)
    pub answer : Out
    pub handled :
        handle_header client_time (fields_parsed l fs r) out
        ≡ ok (record (fields_parsed l fs r) { list = [] }, answer)
    pub keep_alive : answer.keep_alive ≡ (if some_field_asks fs then 1 else out.keep_alive)
    pub status : answer.status ≡ out.status

  module _ (shifts : ShiftsOut shift_z) (answers : (n : ℕ) → alloc n ≡ true) where
    bytes-IsServed :
        (l : RequestLine) (f : Field) (fs : List Field) (rest : List ℕ) (out : Out) (r : Request)
        → IsRequestLine l
        → All IsField (f ∷ fs)
        → r.state ≡ start
        → r.list ≡ []
        → Reads r.buf r.pos (line_text l ++ (block_text (f ∷ fs) ++ rest))
        → r.pos + length (line_text l ++ (block_text (f ∷ fs) ++ rest)) ≤ r.last
        → (r.pos + length (line_text l)) % 8124 + length (block_text (f ∷ fs)) ≤ 8124
        → IsServed l (f ∷ fs) out r
    bytes-IsServed l f fs rest out r is all fresh empty reads size fits =
        let block = block_text (f ∷ fs) in
        let q = parsed l r in
        let body = fields_parsed l (f ∷ fs) r in
        let at_fields = version_stop_lem l r.pos in
        let sum = length-append (line_text l) (block ++ rest) in
        let sum' = length-append block rest in
        let (first, later) =
          Reads-append r.buf r.pos q.pos (line_text l) (block ++ rest) reads at_fields in
        let (texts, after) =
          Reads-append r.buf q.pos (q.pos + length block) block rest later refl in
        let whole : body.buf ≡ r.buf = with_fields-buf (f ∷ fs) q.pos q in
        let asks : any_of (asks_keep_alive body) body.list ≡ some_field_asks (f ∷ fs) =
          headers_ask (f ∷ fs) q.pos body q (subst (λ b. Reads b q.pos block) (sym whole) texts)
            (omega (arith, at_fields))
          ∙ rw empty (or_false (some_field_asks (f ∷ fs))) in
        record {
          line = parse-accepts shift_z shifts l r is fresh first (omega (arith, sum));
          fields =
              parse-accepts_fields alloc answers f fs q all refl texts
                (omega (arith, sum, sum', at_fields));
          answer = answered client_time body out body.list;
          handled =
              handle_header_exact client_time body out
                (fields-IsPlaced (f ∷ fs) q.pos q (subst (All IsPlaced) (sym empty) tt));
          keep_alive = ap (λ b. if b then 1 else out.keep_alive) asks;
          status = refl;
        }

    -- A socket delivers, in reads of any size that the ring has room for, a request line, header
    -- fields and anything more, to a request with no unread bytes, before its first state and
    -- without headers, where the bytes of the fields do not go over the ring's end. Then
    -- sgx_request_run returns from its loop at EAGAIN; on the request it leaves,
    -- sgx_http_parse_request_line accepts the line, sgx_http_parse_request_body accepts the fields,
    -- and sgx_http_handle_header consumes the headers, sets `keep_alive` when a field is taken for
    -- "Connection: keep-alive" and leaves it otherwise, and leaves the status.
    pub request_run-IsServed :
        (t : Timers) (ptr p : ℕ) (value : Time) (chunks : List (List ℕ)) (r : Request)
        → (l : RequestLine) (f : Field) (fs : List Field) (rest : List ℕ) (out : Out)
        → t.timer ptr ≡ some p
        → HasRoom r
        → r.pos ≡ r.last
        → r.state ≡ start
        → r.list ≡ []
        → AreReads chunks r
        → r.last + length (joined chunks) < 2 ^ 64
        → joined chunks ≡ line_text l ++ (block_text (f ∷ fs) ++ rest)
        → IsRequestLine l
        → All IsField (f ∷ fs)
        → (r.pos + length (line_text l)) % 8124 + length (block_text (f ∷ fs)) ≤ 8124
        → Returns
            (λ (t', e, r'). (e ≡ drained) × IsServed l (f ∷ fs) out r')
            (request_run t ptr value (answers_of chunks) r)
    request_run-IsServed t ptr p value chunks r l f fs rest out has room unread fresh empty reads
          small text is all fits =
        let sum = ap length text in
        Returns-map (request_run_correct t ptr p value chunks r has room reads small)
          (λ (t', e, r') (deleted, end, stored). (
            end,
            bytes-IsServed l f fs rest out r' is all
                (ap (λ (q : Request). q.state) stored.others ∙ fresh)
                (ap (λ (q : Request). q.list) stored.others ∙ empty)
                (subst (Reads r'.buf r'.pos) text (
                  Holds-Reads r'.buf r'.pos (joined chunks) (
                    subst (λ i. Holds r'.buf i (joined chunks)) (sym (stored.pos ∙ unread))
                      stored.bytes)))
                (omega (arith, sum, stored.pos, stored.last)) (omega (arith, fits, stored.pos)),
          ))
