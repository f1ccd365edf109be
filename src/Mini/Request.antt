-- ===== src/Mini/Request.antt =====
-- The part of sgx_request_accept in src/test/sgx_mini.c that reads the request line.
-- The line is the memory from sgx_buf on. `sgx_iscgi` is not 0 as long as no script is asked for.
pub mod Words
pub mod Parts
mod Tests
use sginx.Base.{
  ℕ, zero, suc, Bool, true, false, not, ◌&&◌, ◌||◌, Option, none, some, List, [], ◌∷◌, ltb, ◌==◌,
  if◌then◌else◌,
}
use sginx.Base.Run.{Run, ok, fault, out_of_fuel, ◌>>=◌}
use sginx.Mini.{int_buf}
use sginx.Http.Handle.{lower}

-- sh_isspace
abbrev pub is_space : ℕ → Bool
is_space c = (c == b' ') || not (ltb c 9 || ltb 13 c)

-- a character is read at an index: behind sgx_buf that is a fault
abbrev pub inside_buf {ℓ} : {A : Type ℓ} → ℕ → Run A → Run A
inside_buf i next = if ltb i int_buf then next else fault

-- the characters that a loop copies while there is room, and the index behind them
unfoldable pub copy : (room : ℕ) → (ℕ → ℕ) → ℕ → Run (List ℕ × ℕ)
copy zero buf i = ok ([], i)
copy (suc room) buf i =
    let rest = (copy room buf (suc i) >>= λ (cs, j). ok (buf i ∷ cs, j)) in
    inside_buf i (if is_space (buf i) then ok ([], i) else rest)

-- `while(*sgx_rt && sh_isspace(*sgx_rt))`
unfoldable pub skip_spaces : ℕ → (ℕ → ℕ) → ℕ → Run ℕ
skip_spaces zero buf i = out_of_fuel
skip_spaces (suc k) buf i =
    let later = skip_spaces k buf (suc i) in
    inside_buf i (if not (buf i == 0) && is_space (buf i) then later else ok i)

-- strcasecmp of a string, up to its NUL, and a word, as a test for 0
abbrev pub same_word : List ℕ → List ℕ → Bool
same_word [] [] = true
same_word [] (d ∷ ds) = false
same_word (c ∷ cs) [] = c == 0
same_word (c ∷ cs) (d ∷ ds) = (lower c == lower d) && same_word cs ds

abbrev pub post_word : List ℕ
post_word = b'P' ∷ b'O' ∷ b'S' ∷ b'T' ∷ []

abbrev pub get_word : List ℕ
get_word = b'G' ∷ b'E' ∷ b'T' ∷ []

-- what the line asks for: it is answered by rsp_501, or it names a path and, unless sgx_query has no
-- value, a query
pub data Asked : Type 0 where
  rejected : Asked
  asks : (type path : List ℕ) → (query : Option (List ℕ)) → (iscgi : Bool) → Asked

-- the path, up to its NUL, is cut at its first '?'
unfoldable pub cut : List ℕ → List ℕ × Option (List ℕ)
cut [] = ([], none)
cut (c ∷ cs) =
    let rest = cut cs in
    if c == 0 then (c ∷ cs, none) else if c == b'?' then ([], some cs) else (c ∷ rest.0, rest.1)

abbrev pub is_none : Option (List ℕ) → Bool
is_none none = true
is_none (some q) = false

abbrev pub or_empty : Option (List ℕ) → List ℕ
or_empty none = []
or_empty (some q) = q

-- the end of the parse: a POST keeps its path, another request's path is cut
abbrev pub with_path : Bool → List ℕ → List ℕ → Asked
with_path true type path = asks type path none false
with_path false type path =
    let parts = cut path in asks type parts.0 (some (or_empty parts.1)) (is_none parts.1)

-- behind the method: sgx_path has 512 bytes, and a '.' stands before the path
abbrev pub path_read : Bool → List ℕ → List ℕ × ℕ → Run Asked
path_read is_post type (path, i) = ok (with_path is_post type (b'.' ∷ path))

abbrev pub read_path : (ℕ → ℕ) → Bool → List ℕ → ℕ → Run Asked
read_path buf is_post type i = copy 510 buf i >>= path_read is_post type

abbrev pub method_read : ℕ → (ℕ → ℕ) → List ℕ × ℕ → Run Asked
method_read fuel buf (type, i) =
    let is_post = same_word type post_word in
    let parsed = (skip_spaces fuel buf i >>= read_path buf is_post type) in
    if not is_post && not (same_word type get_word) then ok rejected else parsed

-- sgx_type has 32 bytes
unfoldable pub parse_request : ℕ → (ℕ → ℕ) → Run Asked
parse_request fuel buf = copy 31 buf 0 >>= method_read fuel buf
