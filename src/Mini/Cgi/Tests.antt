-- ===== src/Mini/Cgi/Tests.antt =====
-- The request "POST" with a body of two bytes for a script that prints one, and the theorems at it.
use sginx.Base.{ℕ, ◌≡◌, refl, true, false, some, none, List, [], ◌∷◌, ◌++◌, arith, length}
use sginx.Base.Run.{ok, fault, Returns}
use sginx.Mini.Request.{same_word, post_word}
use sginx.Conf.{atoi, digits, split_delim}
use sginx.Mini.{get_fd_line, line_loop, after_cr}
use sginx.Mini.Serve.Headers.{block}
use sginx.Mini.Serve.{Files, ran, closed, request_accept}
use sginx.Mini.Serve.RequestLine.{IsLine, line_of}
use sginx.Mini.Serve.Post.{request_accept-runs}
use sginx.Mini.Environ.{child_environ, put_name, query_name}
use sginx.Mini.Environ.Puts.{child_environ_exact}
use sginx.Mini.Cgi.{
  po_read, po_write, pi_read, pi_write, made_po, made_pi, shut, sent, fed, fetched, waited, parent,
  child, duplicated, executed, System, text_at, read_length, copy_body, copy_output, status_text,
  absent, request_cgi,
}
use sginx.Mini.Cgi.Header.{IsText, told}
use sginx.Mini.Cgi.Ends.{follow, all_shut, request_cgi-Balanced}
use sginx.Mini.Cgi.Posted.{all_fed, all_copied}

abbrev type_word : List ℕ
type_word = b'p' ∷ b'O' ∷ b'S' ∷ b'T' ∷ []

abbrev path_word : List ℕ
path_word = b'.' ∷ b'/' ∷ b'a' ∷ []

-- "content-length: 2"
abbrev header : List ℕ
header =
    b'c' ∷ b'o' ∷ b'n' ∷ b't' ∷ b'e' ∷ b'n' ∷ b't' ∷ b'-' ∷ b'l' ∷ b'e' ∷ b'n' ∷ b'g' ∷ b't' ∷ b'h'
    ∷ b':' ∷ b' ' ∷ b'2' ∷ []

abbrev body : List ℕ
body = b'a' ∷ b'b' ∷ []

abbrev sys : System
sys = record {
  first_pipe = true;
  second_pipe = true;
  forked = parent;
  output = b'x' ∷ [];
  environ = (b'H' ∷ b'=' ∷ []) ∷ [];
  stale = 0;
}

abbrev zeros : ℕ → ℕ
zeros i = 0

abbrev request : List ℕ
request = block (header ∷ []) (body ++ b'c' ∷ [])

run_test :
    request_cgi sys request zeros type_word path_word none
    ≡ ok (
        made_po
        ∷ made_pi
        ∷ sent status_text
        ∷ shut po_write
        ∷ shut pi_read
        ∷ fed b'a'
        ∷ fed b'b'
        ∷ fetched b'x'
        ∷ sent (b'x' ∷ [])
        ∷ shut po_read
        ∷ shut pi_write
        ∷ waited
        ∷ [])
unfolding request_cgi read_length text_at atoi digits get_fd_line line_loop after_cr copy_body
    copy_output
run_test = refl

child_test :
    request_cgi (record sys { forked = child }) request zeros type_word path_word (some [])
    ≡ ok (
        made_po
        ∷ made_pi
        ∷ duplicated po_write 1
        ∷ duplicated pi_read 0
        ∷ shut po_read
        ∷ shut pi_write
        ∷ executed path_word ((b'H' ∷ b'=' ∷ []) ∷ query_name ∷ [])
        ∷ [])
unfolding request_cgi read_length text_at atoi digits get_fd_line line_loop after_cr split_delim
    put_name
child_test = refl

header-IsText : IsText header
header-IsText = record {
  header = record {
    plain = omega arith;
    some_bytes = omega arith;
    small = omega arith;
    visible = omega arith;
  };
  no_nul = omega arith;
  reaches = λ tells. omega arith;
}

request_cgi-Balanced_example :
    Returns
      (λ calls. follow calls all_shut ≡ some all_shut)
      (request_cgi sys request zeros type_word path_word none)
request_cgi-Balanced_example =
    request_cgi-Balanced sys request zeros type_word path_word none refl (λ e. cc e)

abbrev get_type : List ℕ
get_type = b'G' ∷ b'e' ∷ b't' ∷ []

child_environ_exact_example :
    (same_word get_type post_word ≡ false
      → child_environ sys.environ get_type absent (some (b'q' ∷ []))
        ≡ ok (sys.environ ++ (query_name ++ b'q' ∷ []) ∷ []))
    × (same_word get_type post_word ≡ true → child_environ sys.environ get_type absent none ≡ fault)
child_environ_exact_example =
    child_environ_exact sys.environ get_type absent (b'q' ∷ []) (refl, tt) (refl, tt)

told-length : told (header ∷ []) absent ≡ length body
unfolding atoi digits
told-length = refl

-- every path names the script
abbrev files : Files
files = record {
  executable = λ path. some true;
  contents = λ path. none;
  fresh_buf = zeros;
  sys = sys;
}

abbrev target_word : List ℕ
target_word = b'/' ∷ b'a' ∷ []

abbrev version_word : List ℕ
version_word = b'H' ∷ b'T' ∷ b'T' ∷ b'P' ∷ []

type_word-IsLine : IsLine type_word target_word version_word
type_word-IsLine = record {
  known = refl;
  method_plain = (refl, (refl, (refl, (refl, tt))));
  method_small = omega arith;
  path_plain = (refl, (refl, tt));
  path_some = omega arith;
  path_small = omega arith;
  version_plain = omega arith;
  line_small = omega arith;
}

request_accept-runs_example :
    request_accept files (line_of type_word target_word version_word ++ 13 ∷ 10 ∷ request) zeros
    ≡ ok (
        ran (
          made_po
          ∷ made_pi
          ∷ sent status_text
          ∷ shut po_write
          ∷ shut pi_read
          ∷ (all_fed body ++ (all_copied sys.output ++ shut po_read ∷ shut pi_write ∷ waited ∷ [])))
        ∷ closed
        ∷ [])
request_accept-runs_example =
    request_accept-runs files type_word target_word version_word (header ∷ []) body (b'c' ∷ [])
      zeros true type_word-IsLine refl (omega arith) (header-IsText, tt) told-length (omega arith)
      refl refl refl refl
