-- ===== src/Http/Headers/Accept.antt =====
-- Well-formed header fields are accepted, and stored with the places of their keys and values.
use sginx.Base.{
  ℕ, ◌+◌, ◌≤◌, ◌≡◌, ◌≢◌, refl, ◌∙◌, ap, Bool, true, some, List, [], ◌∷◌, ◌++◌, arith, length, All,
}
use sginx.Http.{
  Code, sgx_ok, State, start, key, spaces_after_colon, value, cr, crlf, Header, Request, cr_char,
  lf_char, at, go,
}
use sginx.Http.Loop.Feed.{KeepsBuf, Reads, feed, feed_byte, feed_stay}
use sginx.Http.Loop.Early.{parse-early}
use sginx.Http.Headers.{finish, header_step, parse_request_body}

-- the parts of "Key: value"; the gap stands between the colon and the value
pub record Field : Type 0 where
  pub key_head : ℕ
  pub key_tail : List ℕ
  pub gap : List ℕ
  pub value_head : ℕ
  pub value_tail : List ℕ

abbrev pub KeyByte : ℕ → Type 0
KeyByte c = (c ≢ b' ') × (c ≢ b':')

abbrev pub Space : ℕ → Type 0
Space c = c ≡ b' '

abbrev pub NoLineEnd : ℕ → Type 0
NoLineEnd c = (c ≢ cr_char) × (c ≢ lf_char)

pub record IsField (f : Field) : Type 0 where
  pub key_head : NoLineEnd f.key_head
  pub key_tail : All KeyByte f.key_tail
  pub gap : All Space f.gap
  pub value_head : f.value_head ≢ b' '
  pub value_tail : All NoLineEnd f.value_tail

-- the field's bytes behind the first one, without the line's end, and `rest` behind them
abbrev pub tail_text : Field → List ℕ → List ℕ
tail_text f rest = f.key_tail ++ b':' ∷ (f.gap ++ f.value_head ∷ (f.value_tail ++ rest))

-- a line with the field, and `rest` behind it
abbrev pub field_text : Field → List ℕ → List ℕ
field_text f rest = f.key_head ∷ tail_text f (13 ∷ 10 ∷ rest)

-- the positions of the colon, of the value and of the carriage return, and the one behind the
-- field, in a field that begins at `pos`
abbrev pub key_stop : Field → ℕ → ℕ
key_stop f pos = pos + 1 + length f.key_tail

abbrev pub value_begin : Field → ℕ → ℕ
value_begin f pos = key_stop f pos + 1 + length f.gap

abbrev pub value_stop : Field → ℕ → ℕ
value_stop f pos = value_begin f pos + 1 + length f.value_tail

abbrev pub field_stop : Field → ℕ → ℕ
field_stop f pos = value_stop f pos + 1 + 1

abbrev pub header_at : Field → ℕ → Header
header_at f pos = record {
  key_start = some (at pos);
  key_end = some (at (key_stop f pos));
  value_start = some (at (value_begin f pos));
  value_end = some (at (value_stop f pos));
}

-- the request with one more header
abbrev pub with_field : Field → ℕ → Request → Request
with_field f pos r = record r {
  list = header_at f pos ∷ r.list;
  cur_header_key_start = some (at pos);
  cur_header_key_end = some (at (key_stop f pos));
  cur_header_value_start = some (at (value_begin f pos));
  cur_header_value_end = some (at (value_stop f pos));
}

-- a whole block: the fields, then an empty line
abbrev pub block_text : List Field → List ℕ
block_text [] = 13 ∷ 10 ∷ []
block_text (f ∷ fs) = field_text f (block_text fs)

abbrev pub block_stop : List Field → ℕ → ℕ
block_stop [] pos = pos + 1 + 1
block_stop (f ∷ fs) pos = block_stop fs (field_stop f pos)

abbrev pub with_fields : List Field → ℕ → Request → Request
with_fields [] pos r = r
with_fields (f ∷ fs) pos r = with_fields fs (field_stop f pos) (with_field f pos r)

module _ (alloc : ℕ → Bool) where
  pub header_step-KeepsBuf : KeepsBuf (header_step alloc)
  unfolding header_step
  header_step-KeepsBuf start p c r = ground arith
  header_step-KeepsBuf _ p c r = ground arith

  abbrev pub feed_header : List ℕ → State → ℕ → Request → Code × Request
  feed_header = feed (header_step alloc) finish

  key_stay : (p c : ℕ) (r : Request) → KeyByte c → header_step alloc key p c r ≡ go key r
  unfolding header_step
  key_stay p c r ne = ground arith

  gap_stay :
      (p c : ℕ) (r : Request)
      → Space c
      → header_step alloc spaces_after_colon p c r ≡ go spaces_after_colon r
  unfolding header_step
  gap_stay p c r e = ground arith

  value_stay : (p c : ℕ) (r : Request) → NoLineEnd c → header_step alloc value p c r ≡ go value r
  unfolding header_step
  value_stay p c r ne = ground arith

  -- the request when the value's last byte was read
  abbrev pub read_field : Field → ℕ → Request → Request
  read_field f pos r = record r {
    cur_header_key_start = some (at pos);
    cur_header_key_end = some (at (key_stop f pos));
    cur_header_value_start = some (at (value_begin f pos));
  }

  -- a field behind its first byte, up to the end of the line
  pub feed_tail :
      (f : Field) (rest : List ℕ) (pos : ℕ) (r : Request)
      → IsField f
      → feed_header
          (tail_text f rest)
          key
          (pos + 1)
          (record r { cur_header_key_start = some (at pos) })
        ≡ feed_header rest value (value_stop f pos) (read_field f pos r)
  unfolding header_step
  feed_tail f rest pos r is =
      let step = header_step alloc in
      let r1 = record r { cur_header_key_start = some (at pos) } in
      let r2 = record r1 { cur_header_key_end = some (at (key_stop f pos)) } in
      let r3 = record r2 { cur_header_value_start = some (at (value_begin f pos)) } in
      feed_stay step finish key KeyByte key_stay f.key_tail _ (pos + 1) r1 is.key_tail
      ∙ feed_byte step finish b':' _ key spaces_after_colon (key_stop f pos) r1 r2 refl
      ∙ feed_stay step finish spaces_after_colon Space gap_stay f.gap _ (key_stop f pos + 1) r2
          is.gap
      ∙ feed_byte step finish f.value_head _ spaces_after_colon value (value_begin f pos) r2 r3
          (ground (arith, is.value_head))
      ∙ feed_stay step finish value NoLineEnd value_stay f.value_tail rest (value_begin f pos + 1)
          r3 is.value_tail

  module _ (answers : (n : ℕ) → alloc n ≡ true) where
    feed_field_tail :
        (f : Field) (rest : List ℕ) (pos : ℕ) (r : Request)
        → IsField f
        → feed_header
            (tail_text f (13 ∷ 10 ∷ rest))
            key
            (pos + 1)
            (record r { cur_header_key_start = some (at pos) })
          ≡ feed_header rest crlf (field_stop f pos) (with_field f pos r)
    unfolding header_step
    feed_field_tail f rest pos r is =
        let step = header_step alloc in
        let r3 = read_field f pos r in
        let r4 = record r3 { cur_header_value_end = some (at (value_stop f pos)) } in
        feed_tail f (13 ∷ 10 ∷ rest) pos r is
        ∙ feed_byte step finish 13 (10 ∷ rest) value cr (value_stop f pos) r3 r4 refl
        ∙ feed_byte step finish 10 rest cr crlf (value_stop f pos + 1) r4 (with_field f pos r)
            (rw (answers (length r.list)))

    -- the fields that follow another one
    feed_block :
        (fs : List Field) (pos : ℕ) (r : Request)
        → All IsField fs
        → feed_header (block_text fs) crlf pos r
          ≡ (sgx_ok, record (with_fields fs pos r) { pos = block_stop fs pos; state = start })
    unfolding header_step feed
    feed_block [] pos r all = refl
    feed_block (f ∷ fs) pos r (is, all) =
        feed_byte (header_step alloc) finish f.key_head _ crlf key pos r _ (ground arith)
        ∙ feed_field_tail f (block_text fs) pos r is
        ∙ feed_block fs (field_stop f pos) (with_field f pos r) all

    -- A block of one or more well-formed header fields and an empty line, wherever it stands in
    -- the ring, is accepted when all its bytes are there, whatever follows, and malloc
    -- answers. Every field is stored
    -- with the places of its key and of its value, the last in front; the parser stops behind the
    -- block in the state `start`.
    pub parse-accepts_fields :
        (f : Field) (fs : List Field) (r : Request)
        → All IsField (f ∷ fs)
        → r.state ≡ start
        → Reads r.buf r.pos (block_text (f ∷ fs))
        → r.pos + length (block_text (f ∷ fs)) ≤ r.last
        → parse_request_body alloc r ≡ (
          sgx_ok,
          record (with_fields (f ∷ fs) r.pos r) { pos = block_stop (f ∷ fs) r.pos; state = start },
        )
    unfolding parse_request_body
    parse-accepts_fields f fs r (is, all) fresh reads size =
        let fed : feed_header (block_text (f ∷ fs)) r.state r.pos r ≡ (
          sgx_ok,
          record (with_fields (f ∷ fs) r.pos r) { pos = block_stop (f ∷ fs) r.pos; state = start },
        ) =
          ap (λ s. feed_header (block_text (f ∷ fs)) s r.pos r) fresh
          ∙ feed_byte (header_step alloc) finish f.key_head _ start key r.pos r _
              (ground (arith, is.key_head))
          ∙ feed_field_tail f (block_text fs) r.pos r is
          ∙ feed_block fs (field_stop f r.pos) (with_field f r.pos r) all in
        parse-early (header_step alloc) finish header_step-KeepsBuf (block_text (f ∷ fs)) r reads
          size (rw fed (λ e. absurd (ground arith)))
        ∙ fed
