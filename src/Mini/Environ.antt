-- ===== src/Mini/Environ.antt =====
-- The environment that the child in sgx_request_cgi of src/test/sgx_mini.c gives to the script. putenv
-- keeps the pointer to sgx_buf, so a later sprintf into sgx_buf changes the entry.
pub mod Puts
use sginx.Base.{
  ℕ, zero, suc, ◌+◌, ◌-◌, ◌/◌, ◌%◌, ◌^◌, Bool, Option, none, some, List, [], ◌∷◌, ◌++◌, ltb,
  if◌then◌else◌,
}
use sginx.Base.Run.{Run, ok, fault, ◌>>=◌}
use sginx.Conf.{begins_with, split_delim}
use sginx.Mini.Request.{same_word, post_word}

-- "REQUEST_METHOD=", "CONTENT_LENGTH=" and "QUERY_STRING="
abbrev pub method_name : List ℕ
method_name =
    b'R' ∷ b'E' ∷ b'Q' ∷ b'U' ∷ b'E' ∷ b'S' ∷ b'T' ∷ b'_' ∷ b'M' ∷ b'E' ∷ b'T' ∷ b'H' ∷ b'O' ∷ b'D'
    ∷ b'=' ∷ []

abbrev pub content_name : List ℕ
content_name =
    b'C' ∷ b'O' ∷ b'N' ∷ b'T' ∷ b'E' ∷ b'N' ∷ b'T' ∷ b'_' ∷ b'L' ∷ b'E' ∷ b'N' ∷ b'G' ∷ b'T' ∷ b'H'
    ∷ b'=' ∷ []

abbrev pub query_name : List ℕ
query_name =
    b'Q' ∷ b'U' ∷ b'E' ∷ b'R' ∷ b'Y' ∷ b'_' ∷ b'S' ∷ b'T' ∷ b'R' ∷ b'I' ∷ b'N' ∷ b'G' ∷ b'=' ∷ []

-- an entry of the environment: a string that the process was started with, or the pointer sgx_buf
pub data Entry : Type 0 where
  given : List ℕ → Entry
  at_buf : Entry

-- the string that an entry is while sgx_buf holds `text`
abbrev pub entry_text : List ℕ → Entry → List ℕ
entry_text text (given string) = string
entry_text text at_buf = text

abbrev pub texts : List ℕ → List Entry → List (List ℕ)
texts text [] = []
texts text (e ∷ es) = entry_text text e ∷ texts text es

abbrev pub all_given : List (List ℕ) → List Entry
all_given [] = []
all_given (string ∷ strings) = given string ∷ all_given strings

-- the first entry with the name is replaced, or the pointer is added behind the others
unfoldable pub put_name : (name text : List ℕ) → List Entry → List Entry
put_name name text [] = at_buf ∷ []
put_name name text (e ∷ es) =
    let rest = put_name name text es in
    if begins_with name (entry_text text e) then at_buf ∷ es else e ∷ rest

-- putenv(sgx_buf) while sgx_buf holds `text`; a text without '=' is not given to it here
abbrev pub putenv_parts : List ℕ → List Entry → Option (List ℕ × List ℕ) → List Entry
putenv_parts text es none = es
putenv_parts text es (some (name, value)) = put_name (name ++ b'=' ∷ []) text es

abbrev pub putenv : List ℕ → List Entry → List Entry
putenv text es = putenv_parts text es (split_delim text)

-- "%d"
unfoldable pub decimal_digits : (fuel : ℕ) → ℕ → List ℕ → List ℕ
decimal_digits zero n later = later
decimal_digits (suc fuel) n later =
    let digit = b'0' + n % 10 in
    let more = decimal_digits fuel (n / 10) (digit ∷ later) in
    if ltb n 10 then digit ∷ later else more

abbrev pub decimal_text : ℕ → List ℕ
decimal_text n =
    if ltb n (2 ^ 31) then decimal_digits 10 n [] else b'-' ∷ decimal_digits 10 (2 ^ 32 - n) []

-- what the second sprintf stores; `query` is none where sgx_query has no value
abbrev pub second_text : (first : List ℕ) → ℕ → Option (List ℕ) → Run (List ℕ)
second_text first contlen query =
    if same_word first post_word
    then ok (content_name ++ decimal_text contlen)
    else elim query [ none ↦ fault | some q ↦ ok (query_name ++ q) ]

-- the child's strings at execl
abbrev pub child_environ :
    List (List ℕ) → (type : List ℕ) → ℕ → Option (List ℕ) → Run (List (List ℕ))
child_environ environ type contlen query =
    let first = method_name ++ type in
    let es = putenv first (all_given environ) in
    second_text first contlen query >>= λ second. ok (texts second (putenv second es))
