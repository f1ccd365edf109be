-- ===== src/Http/Line/Accept.antt =====
-- A well-formed request line is accepted, and its parts are found.
use sginx.Base.{
  arith, ℕ, ◌+◌, ◌-◌, ◌^◌, ◌≤◌, ◌<◌, ◌≡◌, ◌∙◌, ap, some, List, [], ◌∷◌, ◌++◌, length, All,
}
use sginx.Http.{sgx_ok, start, Request, at}
use sginx.Http.Line.{finish, method_code, line_step, parse_request_line}
use sginx.Http.Loop.Feed.{Reads}
use sginx.Http.Loop.Early.{parse-early}
use sginx.Http.Line.Feed.{feed_line, line_step-KeepsBuf}
use sginx.Http.Line.Segments.{
  ShiftsOut, MethodByte, NotSpace, Digit, decimal, feed_method, feed_uri, feed_major, feed_minor,
  feed_end,
}

-- the parts of a request line: a method, the path behind its slash, and the version's digits
pub record RequestLine : Type 0 where
  pub method_head : ℕ
  pub method_tail : List ℕ
  pub path : List ℕ
  pub major : ℕ
  pub minor_head : ℕ
  pub minor_tail : List ℕ

pub record IsRequestLine (l : RequestLine) : Type 0 where
  pub method_head : MethodByte l.method_head
  pub method_tail : All MethodByte l.method_tail
  pub path : All NotSpace l.path
  pub major_low : b'1' ≤ l.major
  pub major_high : l.major ≤ b'9'
  pub minor_head : Digit l.minor_head
  pub minor_tail : All Digit l.minor_tail
  pub minor_small : decimal 0 (l.minor_head ∷ l.minor_tail) < 2 ^ 31

-- "METHOD /path HTTP/1.1", carriage return, line feed
abbrev pub end_text : List ℕ
end_text = 13 ∷ 10 ∷ []

abbrev pub version_text : RequestLine → List ℕ
version_text l =
    b'H' ∷ b'T' ∷ b'T' ∷ b'P' ∷ b'/' ∷ l.major ∷ b'.' ∷ l.minor_head ∷ (l.minor_tail ++ end_text)

abbrev pub line_text : RequestLine → List ℕ
line_text l = l.method_head ∷ (l.method_tail ++ b' ' ∷ (b'/' ∷ (l.path ++ b' ' ∷ version_text l)))

-- the positions of the first space, of the second space and of the carriage return, in a line that
-- begins at `pos`
abbrev pub method_stop : RequestLine → ℕ → ℕ
method_stop l pos = pos + 1 + length l.method_tail

abbrev pub path_stop : RequestLine → ℕ → ℕ
path_stop l pos = method_stop l pos + 1 + 1 + length l.path

abbrev pub version_stop : RequestLine → ℕ → ℕ
version_stop l pos = path_stop l pos + 1 + 7 + 1 + length l.minor_tail

-- the request that the parser leaves
abbrev pub parsed : RequestLine → Request → Request
parsed l r = record r {
  pos = version_stop l r.pos + 1 + 1;
  state = start;
  begin = some (at r.pos);
  method_end = some (at (method_stop l r.pos));
  method = method_code r (at (method_stop l r.pos));
  uri_start = some (at (method_stop l r.pos + 1));
  uri_end = some (at (path_stop l r.pos));
  http_major = l.major - b'0';
  http_minor = decimal 0 (l.minor_head ∷ l.minor_tail);
  request_end = some (at (version_stop l r.pos + 1) - 1);
}

module _ (shift_z : ℕ → ℕ) (out : ShiftsOut shift_z) (l : RequestLine) where
  feed-line_text :
      (r : Request)
      → IsRequestLine l
      → feed_line shift_z (line_text l) start r.pos r ≡ (sgx_ok, parsed l r)
  feed-line_text r is =
      feed_method shift_z out l.method_head l.method_tail _ r.pos r is.method_head is.method_tail
      ∙ feed_uri shift_z l.path (version_text l) _ _ is.path
      ∙ feed_major shift_z l.major (l.minor_head ∷ (l.minor_tail ++ end_text)) _ _ is.major_low
          is.major_high
      ∙ feed_minor shift_z l.minor_head l.minor_tail end_text _ _ is.minor_head is.minor_tail
          is.minor_small
      ∙ feed_end shift_z _ _

  -- A well-formed request line, wherever it stands in the ring, is accepted when all its bytes are
  -- there, whatever follows: method of any bytes from 'A' on, one space, a slash and a path without spaces, one
  -- space, "HTTP/", a major digit from 1 to 9, a dot, minor digits that fit an int, CR and LF. The
  -- parser stops behind it in the state `start`, and every field that it writes is as `parsed`
  -- says; all others are kept. The compiled `c >> 'Z'` must be 0 on bytes.
  pub parse-accepts :
      (r : Request)
      → IsRequestLine l
      → r.state ≡ start
      → Reads r.buf r.pos (line_text l)
      → r.pos + length (line_text l) ≤ r.last
      → parse_request_line shift_z r ≡ (sgx_ok, parsed l r)
  unfolding parse_request_line
  parse-accepts r is fresh reads size =
      let fed : feed_line shift_z (line_text l) r.state r.pos r ≡ (sgx_ok, parsed l r) =
        ap (λ s. feed_line shift_z (line_text l) s r.pos r) fresh ∙ feed-line_text r is in
      parse-early (line_step shift_z) finish (line_step-KeepsBuf shift_z) (line_text l) r reads size
        (rw fed (λ e. absurd (ground arith)))
      ∙ fed
