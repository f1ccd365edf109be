-- ===== src/Mini/Serve/Tests.antt =====
-- The request "GET /a HTTP" for a small file, and the theorem at it.
use sginx.Base.{true, ℕ, ◌≡◌, refl, false, some, List, [], ◌∷◌, ◌++◌, arith}
use sginx.Base.Run.{ok, Returns}
use sginx.Conf.{fgets_line, string_of}
use sginx.Mini.{get_fd_line, line_loop, after_cr, skip_headers}
use sginx.Mini.Cgi.{parent}
use sginx.Mini.Request.{parse_request, copy, skip_spaces, cut}
use sginx.Mini.Serve.{replied, sent, closed, Files, send_lines, send_file, request_accept}
use sginx.Mini.Serve.Headers.{IsHeader, block, all_sent, sends}
use sginx.Mini.Serve.RequestLine.{line_of}
use sginx.Mini.Serve.Get.{IsGet, request_accept-sends}

abbrev type_word : List ℕ
type_word = b'G' ∷ b'E' ∷ b'T' ∷ []

abbrev path_word : List ℕ
path_word = b'/' ∷ b'a' ∷ []

abbrev version_word : List ℕ
version_word = b'H' ∷ b'T' ∷ b'T' ∷ b'P' ∷ []

-- "A: b"
abbrev header : List ℕ
header = b'A' ∷ b':' ∷ b' ' ∷ b'b' ∷ []

-- a file of two lines, of which the second has no end
abbrev file : List ℕ
file = b'x' ∷ b'\n' ∷ b'y' ∷ []

-- every path names the file
abbrev files : Files
files = record {
  executable = λ path. some false;
  contents = λ path. some file;
  fresh_buf = λ i. 7;
  sys = record {
    first_pipe = true;
    second_pipe = true;
    forked = parent;
    output = [];
    environ = [];
    stale = 0;
  };
}

abbrev zeros : ℕ → ℕ
zeros i = 0

abbrev request : List ℕ
request = line_of type_word path_word version_word ++ 13 ∷ 10 ∷ block (header ∷ []) []

pieces_test :
    request_accept files request zeros
    ≡ ok (replied 200 ∷ sent (b'x' ∷ b'\n' ∷ []) ∷ sent (b'y' ∷ []) ∷ closed ∷ [])
unfolding request_accept send_file send_lines skip_headers parse_request cut copy skip_spaces
    get_fd_line line_loop after_cr fgets_line string_of
pieces_test = refl

type_word-IsGet : IsGet type_word path_word version_word
type_word-IsGet = record {
  line = record {
    known = refl;
    method_plain = (refl, (refl, (refl, tt)));
    method_small = omega arith;
    path_plain = (refl, (refl, tt));
    path_some = omega arith;
    path_small = omega arith;
    version_plain = omega arith;
    line_small = omega arith;
  };
  method = refl;
  path_visible = ((omega arith, omega arith), ((omega arith, omega arith), tt));
}

header-IsHeader : IsHeader header
header-IsHeader = record {
  plain = omega arith;
  some_bytes = omega arith;
  small = omega arith;
  visible = omega arith;
}

request_accept-sends_example :
    Returns
      (λ effects.
        (pieces : List (List ℕ)) × (effects ≡ replied 200 ∷ (sends pieces ++ closed ∷ []))
        × (all_sent pieces ≡ file))
      (request_accept files request zeros)
request_accept-sends_example =
    request_accept-sends files type_word path_word version_word (header ∷ []) [] zeros file
      type_word-IsGet (header-IsHeader, tt) refl refl (omega arith)
