-- ===== src/Http/Headers/Empty.antt =====
-- Two inputs at which the header fields' parser does not do what HTTP asks for.
use sginx.Base.{ℕ, ◌+◌, ◌≡◌, ◌⊎◌, sym, ◌∙◌, ap, Bool, List, [], ◌∷◌, arith, length, All, append-nil}
use sginx.Http.{sgx_ok, sgx_again, start, key, Request, cr_char, lf_char, go}
use sginx.Http.Loop.Feed.{Reads, feed, feed_byte, feed_stay, parse-feed}
use sginx.Http.Headers.{finish, header_step, parse_request_body}
use sginx.Http.Headers.Accept.{
  Field, IsField, tail_text, header_step-KeepsBuf, feed_header, feed_tail,
}

abbrev pub LineEnd : ℕ → Type 0
LineEnd c = (c ≡ cr_char) ⊎ (c ≡ lf_char)

module _ (alloc : ℕ → Bool) where
  end_stay : (p c : ℕ) (r : Request) → LineEnd c → header_step alloc start p c r ≡ go start r
  unfolding header_step
  end_stay p c r e = ground arith

  -- A request without header fields is never complete: whatever line ends follow the request
  -- line, the empty line among them, the parser asks for more and stays in the state `start`.
  no_fields-again :
      (ends : List ℕ) (r : Request)
      → All LineEnd ends
      → r.state ≡ start
      → Reads r.buf r.pos ends
      → r.last ≡ r.pos + length ends
      → parse_request_body alloc r
        ≡ (sgx_again, record r { pos = r.pos + length ends; state = start })
  unfolding parse_request_body feed
  no_fields-again ends r all fresh reads size =
      parse-feed (header_step alloc) finish (header_step-KeepsBuf alloc) ends r reads size
      ∙ ap (λ s. feed_header alloc ends s r.pos r) fresh
      ∙ ap (λ cs. feed_header alloc cs start r.pos r) (sym (append-nil ends))
      ∙ feed_stay (header_step alloc) finish start LineEnd end_stay ends [] r.pos r all

  -- A field whose line ends in LF alone is dropped: the block is accepted and the list of headers
  -- is the old one.
  lf_field-dropped :
      (f : Field) (r : Request)
      → IsField f
      → r.state ≡ start
      → Reads r.buf r.pos (f.key_head ∷ tail_text f (10 ∷ 13 ∷ 10 ∷ []))
      → r.last ≡ r.pos + length (f.key_head ∷ tail_text f (10 ∷ 13 ∷ 10 ∷ []))
      → ((parse_request_body alloc r).0 ≡ sgx_ok) × ((parse_request_body alloc r).1.list ≡ r.list)
  unfolding parse_request_body feed
  lf_field-dropped f r is fresh reads size =
      let text = f.key_head ∷ tail_text f (10 ∷ 13 ∷ 10 ∷ []) in
      let run =
        parse-feed (header_step alloc) finish (header_step-KeepsBuf alloc) text r reads size
        ∙ ap (λ s. feed_header alloc text s r.pos r) fresh
        ∙ feed_byte (header_step alloc) finish f.key_head (tail_text f (10 ∷ 13 ∷ 10 ∷ [])) start
            key r.pos r _ (ground (arith, is.key_head))
        ∙ feed_tail alloc f (10 ∷ 13 ∷ 10 ∷ []) r.pos r is in
      (ap (λ o. o.0) run, ap (λ o. o.1.list) run)
