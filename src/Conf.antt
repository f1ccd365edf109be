-- ===== src/Conf.antt =====
-- read_conf of src/core/sgx_util.c and .h: the reader of the configuration file. The file does not
-- compile; the model reads `strncmp("root, cur_pos, 4")` as the comparison with "root", and the
-- parameters by their names in the header, `cf` and `buf`. The contents of the file are an argument;
-- `fgets`, `strstr`, `strlen`, `strncmp` and `atoi` are those of C. An int is kept as its 32 bits.
pub mod Text
pub mod Settings
pub mod Put
pub mod Read
pub mod Stops
mod Tests
use sginx.Base.{
  ℕ, zero, suc, ◌+◌, ◌-◌, ◌*◌, ◌%◌, ◌^◌, Bool, true, false, ◌&&◌, ◌||◌, Option, none, some, List,
  [], ◌∷◌, ◌++◌, leb, ◌==◌, if◌then◌else◌, write, fill, length,
}
use sginx.Base.Run.{Run, ok, out_of_fuel}

-- sgx_conf; `root` is an offset in the buffer
pub record Conf : Type 0 where
  pub root : Option ℕ
  pub port : ℕ
  pub thread_num : ℕ

pub data Code : Type 0 where
  conf_ok conf_error : Code

-- the buffer and the configuration
pub record Reading : Type 0 where
  pub buf : ℕ → ℕ
  pub conf : Conf

-- how read_conf ends: its code, whether no file is left open, and what it has filled in
pub record Outcome : Type 0 where
  pub code : Code
  pub closed : Bool
  pub reading : Reading

-- what fgets reads of the rest of a file, for at most so many bytes, and what it leaves
unfoldable pub fgets_line : ℕ → List ℕ → List ℕ × List ℕ
fgets_line zero file = ([], file)
fgets_line (suc most) [] = ([], [])
fgets_line (suc most) (c ∷ file) =
    let (line, rest) = fgets_line most file in
    if c == b'\n' then (c ∷ [], file) else (c ∷ line, rest)

-- the string that stored bytes are: they end before the first NUL
unfoldable pub string_of : List ℕ → List ℕ
string_of [] = []
string_of (c ∷ cs) = let rest = string_of cs in if c == 0 then [] else c ∷ rest

-- strstr(cur_pos, "="): what stands before the first '=' and what stands behind it
unfoldable pub split_delim : List ℕ → Option (List ℕ × List ℕ)
split_delim [] = none
split_delim (c ∷ cs) =
    let rest = split_delim cs in
    if c == b'=' then some ([], cs) else elim rest [ none ↦ none | some (k, v) ↦ some (c ∷ k, v) ]

abbrev pub ends_line : List ℕ → Bool
ends_line [] = false
ends_line (c ∷ []) = c == b'\n'
ends_line (c ∷ d ∷ cs) = ends_line (d ∷ cs)

abbrev pub without_last : List ℕ → List ℕ
without_last [] = []
without_last (c ∷ []) = []
without_last (c ∷ d ∷ cs) = c ∷ without_last (d ∷ cs)

-- strncmp(name, text, strlen(name)) == 0
abbrev pub begins_with : List ℕ → List ℕ → Bool
begins_with [] text = true
begins_with (n ∷ name) [] = false
begins_with (n ∷ name) (c ∷ text) = (n == c) && begins_with name text

abbrev pub is_space : ℕ → Bool
is_space c = (c == b' ') || (leb 9 c && leb c 13)

abbrev pub is_digit : ℕ → Bool
is_digit c = leb b'0' c && leb c b'9'

unfoldable pub digits : ℕ → List ℕ → ℕ
digits value [] = value
digits value (c ∷ cs) =
    let rest = digits (value * 10 + (c - b'0')) cs in if is_digit c then rest else value

abbrev pub signed : List ℕ → ℕ
signed [] = 0
signed (c ∷ cs) =
    if c == b'-'
    then 2 ^ 32 - digits 0 cs % 2 ^ 32
    else if c == b'+'
    then digits 0 cs
    else digits 0 (c ∷ cs)

-- atoi
unfoldable pub atoi : List ℕ → ℕ
atoi [] = 0
atoi (c ∷ cs) = let rest = atoi cs in if is_space c then rest else signed (c ∷ cs) % 2 ^ 32

abbrev pub root_name : List ℕ
root_name = b'r' ∷ b'o' ∷ b'o' ∷ b't' ∷ []

abbrev pub port_name : List ℕ
port_name = b'p' ∷ b'o' ∷ b'r' ∷ b't' ∷ []

abbrev pub threads_name : List ℕ
threads_name = b't' ∷ b'h' ∷ b'r' ∷ b'e' ∷ b'a' ∷ b'd' ∷ b'n' ∷ b'u' ∷ b'm' ∷ []

-- the tests of a line `text` whose value is `value`, at the offset `place`
abbrev pub set : List ℕ → List ℕ → ℕ → Conf → Conf
set text value place conf =
    let c1 : Conf =
      if begins_with root_name text then record conf { root = some place } else conf in
    let c2 : Conf = if begins_with port_name text then record c1 { port = atoi value } else c1 in
    if begins_with threads_name text then record c2 { thread_num = atoi value } else c2

-- the loop's body, behind strstr, for the string that fgets has stored at `cur_pos`
abbrev pub take_parts : ℕ → List ℕ → Reading → Option (List ℕ × List ℕ) → Option Reading
take_parts cur_pos text r none = none
take_parts cur_pos text r (some (key, value)) =
    let place = cur_pos + length key + 1 in
    some (
      if ends_line text
      then record {
        buf = write r.buf (cur_pos + length text - 1) 0;
        conf = set (without_last text) (without_last value) place r.conf;
      }
      else record r { conf = set text value place r.conf })

-- the loop's body behind fgets
abbrev pub take_line : ℕ → List ℕ → Reading → Option Reading
take_line cur_pos text r = take_parts cur_pos text r (split_delim text)

-- the loop of read_conf
unfoldable pub conf_loop : ℕ → ℕ → List ℕ → ℕ → Reading → Run Outcome
conf_loop zero len file cur_pos r = out_of_fuel
conf_loop (suc fuel) len [] cur_pos r = ok (record { code = conf_ok; closed = true; reading = r })
conf_loop (suc fuel) len (c ∷ file) cur_pos r =
    let (line, rest) = fgets_line (len - 1) (c ∷ file) in
    let text = string_of line in
    let stored : Reading = record r { buf = fill r.buf cur_pos (line ++ 0 ∷ []) } in
    elim (take_line cur_pos text stored) [
      | none ↦ ok (record { code = conf_error; closed = false; reading = stored })
      | some r' ↦ conf_loop fuel len rest (cur_pos + length text) r'
    ]

-- read_conf, with the contents of the file if it can be opened
unfoldable pub read_conf : Option (List ℕ) → Reading → ℕ → Run Outcome
read_conf none r len = ok (record { code = conf_error; closed = true; reading = r })
read_conf (some file) r len = conf_loop (length file + 1) len file 0 r
