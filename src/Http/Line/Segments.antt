-- ===== src/Http/Line/Segments.antt =====
-- What the request line's parser makes of the parts of a request line, one part at a time.
use sginx.Base.{
  ℕ, ◌+◌, ◌-◌, ◌*◌, ◌^◌, ◌≤◌, ◌<◌, ◌≡◌, ◌≢◌, refl, ◌∙◌, ap, some, List, [], ◌∷◌, ◌++◌, arith,
  length, All,
}
use sginx.Http.{
  start, method, spaces_before_uri, after_slash_in_uri, http, http_h, http_ht, http_htt, http_http,
  first_major_digit, major_digit, first_minor_digit, minor_digit, Request, at, go,
}
use sginx.Http.Line.{finish, method_code, line_step}
use sginx.Http.Loop.Feed.{feed, feed_byte, feed_stay}
use sginx.Http.Line.Feed.{feed_line}

-- the compiled `c >> 'Z'` shifts every bit of a byte out
abbrev pub ShiftsOut : (ℕ → ℕ) → Type 0
ShiftsOut shift_z = (c : ℕ) → c < 256 → shift_z c ≡ 0

-- bytes from 'A' on
abbrev pub MethodByte : ℕ → Type 0
MethodByte c = (b'A' ≤ c) × (c < 256)

abbrev pub NotSpace : ℕ → Type 0
NotSpace c = c ≢ b' '

abbrev pub Digit : ℕ → Type 0
Digit c = (b'0' ≤ c) × (c ≤ b'9')

-- the number that decimal digits write, behind those that gave `v`
unfoldable pub decimal : ℕ → List ℕ → ℕ
decimal v [] = v
decimal v (c ∷ cs) = decimal (v * 10 + (c - b'0')) cs

decimal_grows : (v : ℕ) (cs : List ℕ) → v ≤ decimal v cs
unfolding decimal
decimal_grows v [] = omega arith
decimal_grows v (c ∷ cs) = omega (arith, decimal_grows (v * 10 + (c - b'0')) cs)

module _ (shift_z : ℕ → ℕ) where
  module _ (out : ShiftsOut shift_z) where
    method_stay :
        (p c : ℕ) (r : Request) → MethodByte c → line_step shift_z method p c r ≡ go method r
    unfolding line_step
    method_stay p c r (low, high) = ground (arith, out c)

    -- the method and the space behind it
    pub feed_method :
        (m : ℕ) (ms rest : List ℕ) (pos : ℕ) (r : Request)
        → MethodByte m
        → All MethodByte ms
        → feed_line shift_z (m ∷ (ms ++ b' ' ∷ rest)) start pos r
          ≡ feed_line shift_z rest spaces_before_uri (pos + 1 + length ms + 1) (record r {
            begin = some (at pos);
            method_end = some (at (pos + 1 + length ms));
            method = method_code r (at (pos + 1 + length ms));
          })
    unfolding line_step
    feed_method m ms rest pos r low lows =
        let begun = record r { begin = some (at pos) } in
        feed_byte (line_step shift_z) finish m (ms ++ b' ' ∷ rest) start method pos r begun
          (ground (arith, out m))
        ∙ feed_stay (line_step shift_z) finish method MethodByte method_stay ms (b' ' ∷ rest)
            (pos + 1) begun lows
        ∙ feed_byte (line_step shift_z) finish b' ' rest method spaces_before_uri
            (pos + 1 + length ms) begun _ refl

  uri_stay :
      (p c : ℕ) (r : Request)
      → NotSpace c
      → line_step shift_z after_slash_in_uri p c r ≡ go after_slash_in_uri r
  unfolding line_step
  uri_stay p c r ne = ground arith

  -- the slash, the rest of the path and the space behind it
  pub feed_uri :
      (path rest : List ℕ) (pos : ℕ) (r : Request)
      → All NotSpace path
      → feed_line shift_z (b'/' ∷ (path ++ b' ' ∷ rest)) spaces_before_uri pos r
        ≡ feed_line shift_z rest http
            (pos + 1 + length path + 1)
            (record r { uri_start = some (at pos); uri_end = some (at (pos + 1 + length path)) })
  unfolding line_step
  feed_uri path rest pos r all =
      let slashed = record r { uri_start = some (at pos) } in
      feed_byte (line_step shift_z) finish b'/' (path ++ b' ' ∷ rest) spaces_before_uri
        after_slash_in_uri pos r slashed refl
      ∙ feed_stay (line_step shift_z) finish after_slash_in_uri NotSpace uri_stay path (b' ' ∷ rest)
          (pos + 1) slashed all
      ∙ feed_byte (line_step shift_z) finish b' ' rest after_slash_in_uri http
          (pos + 1 + length path) slashed _ refl

  -- "HTTP/", the major digit and the dot
  pub feed_major :
      (d : ℕ) (rest : List ℕ) (pos : ℕ) (r : Request)
      → b'1' ≤ d
      → d ≤ b'9'
      → feed_line shift_z (b'H' ∷ b'T' ∷ b'T' ∷ b'P' ∷ b'/' ∷ d ∷ b'.' ∷ rest) http pos r
        ≡ feed_line shift_z rest first_minor_digit (pos + 7) (record r { http_major = d - b'0' })
  unfolding line_step
  feed_major d rest pos r low high =
      let numbered = record r { http_major = d - b'0' } in
      feed_byte (line_step shift_z) finish b'H' _ http http_h pos r r refl
      ∙ feed_byte (line_step shift_z) finish b'T' _ http_h http_ht (pos + 1) r r refl
      ∙ feed_byte (line_step shift_z) finish b'T' _ http_ht http_htt (pos + 1 + 1) r r refl
      ∙ feed_byte (line_step shift_z) finish b'P' _ http_htt http_http (pos + 1 + 1 + 1) r r refl
      ∙ feed_byte (line_step shift_z) finish b'/' _ http_http first_major_digit
          (pos + 1 + 1 + 1 + 1) r r refl
      ∙ feed_byte (line_step shift_z) finish d _ first_major_digit major_digit
          (pos + 1 + 1 + 1 + 1 + 1) r numbered (ground arith)
      ∙ feed_byte (line_step shift_z) finish b'.' rest major_digit first_minor_digit
          (pos + 1 + 1 + 1 + 1 + 1 + 1) numbered numbered refl
      ∙ ap (λ n. feed_line shift_z rest first_minor_digit n numbered) (omega arith)

  minor_stay :
      (cs rest : List ℕ) (pos : ℕ) (r : Request)
      → All Digit cs
      → decimal r.http_minor cs < 2 ^ 31
      → feed_line shift_z (cs ++ rest) minor_digit pos r
        ≡ feed_line shift_z rest minor_digit
            (pos + length cs)
            (record r { http_minor = decimal r.http_minor cs })
  unfolding line_step decimal
  minor_stay [] rest pos r all small =
      ap (λ n. feed_line shift_z rest minor_digit n r) (omega arith)
  minor_stay (c ∷ cs) rest pos r (d, all) small =
      let v : ℕ = r.http_minor * 10 + (c - b'0') in
      let grows = decimal_grows v cs in
      feed_byte (line_step shift_z) finish c (cs ++ rest) minor_digit minor_digit pos r
        (record r { http_minor = v }) (ground arith)
      ∙ minor_stay cs rest (pos + 1) (record r { http_minor = v }) all small
      ∙ ap (λ n. feed_line shift_z rest minor_digit n (record r { http_minor = decimal v cs }))
          (omega arith)

  -- the minor digits
  pub feed_minor :
      (c : ℕ) (cs rest : List ℕ) (pos : ℕ) (r : Request)
      → Digit c
      → All Digit cs
      → decimal 0 (c ∷ cs) < 2 ^ 31
      → feed_line shift_z (c ∷ (cs ++ rest)) first_minor_digit pos r
        ≡ feed_line shift_z rest minor_digit
            (pos + 1 + length cs)
            (record r { http_minor = decimal 0 (c ∷ cs) })
  unfolding line_step decimal
  feed_minor c cs rest pos r d all small =
      feed_byte (line_step shift_z) finish c (cs ++ rest) first_minor_digit minor_digit pos r
        (record r { http_minor = 0 * 10 + (c - b'0') }) (ground arith)
      ∙ minor_stay cs rest (pos + 1) (record r { http_minor = 0 * 10 + (c - b'0') }) all small

  -- the line's end
  pub feed_end :
      (pos : ℕ) (r : Request)
      → feed_line shift_z (13 ∷ 10 ∷ []) minor_digit pos r
        ≡ finish (pos + 1) (record r { request_end = some (at (pos + 1) - 1) })
  unfolding line_step feed
  feed_end pos r = refl
