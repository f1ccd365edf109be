-- ===== src/Conf/Settings.antt =====
-- read_conf of src/core/sgx_util.c on a file of settings.
use sginx.Base.{
  ℕ, ◌+◌, ◌-◌, ◌^◌, ◌<◌, ◌≡◌, ◌≢◌, refl, ap, ◌∙◌, some, List, [], ◌∷◌, ◌++◌, arith, length,
  length-append, All, All-append, append_assoc, write,
}
use sginx.Conf.{
  Conf, Reading, split_delim, set, take_line, take_parts, root_name, port_name, threads_name,
}
use sginx.Conf.Text.{
  split_delim_key, ends_line_last, without_last_lem, Digit, decimal, atoi-decimal,
}

-- what a line sets: the root directory, the port or the number of threads
pub data Setting : Type 0 where
  root : List ℕ → Setting
  port threads : ℕ → List ℕ → Setting

abbrev pub name : Setting → List ℕ
name (root path) = root_name
name (port d ds) = port_name
name (threads d ds) = threads_name

abbrev pub value : Setting → List ℕ
value (root path) = path
value (port d ds) = d ∷ ds
value (threads d ds) = d ∷ ds

-- a path has no NUL and no line feed; the numbers are written in decimal digits and fit into an int
abbrev pub IsSetting : Setting → Type 0
IsSetting (root path) = All (λ c. (c ≢ 0) × (c ≢ b'\n')) path
IsSetting (port d ds) = All Digit (d ∷ ds) × (decimal 0 (d ∷ ds) < 2 ^ 31)
IsSetting (threads d ds) = All Digit (d ∷ ds) × (decimal 0 (d ∷ ds) < 2 ^ 31)

-- a line without its end
abbrev pub line : Setting → List ℕ
line s = name s ++ b'=' ∷ value s

abbrev pub file_text : List Setting → List ℕ
file_text [] = []
file_text (s ∷ ss) = line s ++ b'\n' ∷ file_text ss

-- the lines as strings, one behind the other
abbrev pub strings : List Setting → List ℕ
strings [] = []
strings (s ∷ ss) = line s ++ 0 ∷ strings ss

abbrev pub assign : Setting → ℕ → Conf → Conf
assign (root path) place conf = record conf { root = some place }
assign (port d ds) place conf = record conf { port = decimal 0 (d ∷ ds) }
assign (threads d ds) place conf = record conf { thread_num = decimal 0 (d ∷ ds) }

-- the configuration behind lines that are read to the buffer from `at` on
abbrev pub assign_all : ℕ → List Setting → Conf → Conf
assign_all at [] conf = conf
assign_all at (s ∷ ss) conf =
    assign_all (at + length (line s) + 1) ss (assign s (at + length (name s) + 1) conf)

Digit-plain : (cs : List ℕ) → All Digit cs → All (λ c. (c ≢ 0) × (c ≢ b'\n')) cs
Digit-plain [] all = tt
Digit-plain (c ∷ cs) all = ((ground (arith, all.0), ground (arith, all.0)), Digit-plain cs all.1)

value-plain : (s : Setting) → IsSetting s → All (λ c. (c ≢ 0) × (c ≢ b'\n')) (value s)
value-plain (root path) is = is
value-plain (port d ds) is = Digit-plain (d ∷ ds) is.0
value-plain (threads d ds) is = Digit-plain (d ∷ ds) is.0

name-plain : (s : Setting) → All (λ c. (c ≢ 0) × (c ≢ b'\n')) (name s)
name-plain (root path) = omega arith
name-plain (port d ds) = omega arith
name-plain (threads d ds) = omega arith

pub line-plain : (s : Setting) → IsSetting s → All (λ c. (c ≢ 0) × (c ≢ b'\n')) (line s)
line-plain s is =
    All-append (λ c. (c ≢ 0) × (c ≢ b'\n')) (name s) (b'=' ∷ value s)
      (name-plain s, ((omega arith, omega arith), value-plain s is))

pub All-map : (P Q : ℕ → Type 0) (cs : List ℕ) → ((c : ℕ) → P c → Q c) → All P cs → All Q cs
All-map P Q [] f all = tt
All-map P Q (c ∷ cs) f all = (f c all.0, All-map P Q cs f all.1)

name-key : (s : Setting) → All (λ c. c ≢ b'=') (name s)
name-key (root path) = omega arith
name-key (port d ds) = omega arith
name-key (threads d ds) = omega arith

set-assign :
    (s : Setting) (place : ℕ) (conf : Conf)
    → IsSetting s
    → set (line s) (value s) place conf ≡ assign s place conf
set-assign (root path) place conf is = refl
set-assign (port d ds) place conf is = rw (atoi-decimal d ds is.0 is.1) refl
set-assign (threads d ds) place conf is = rw (atoi-decimal d ds is.0 is.1) refl

pub take_line-setting :
    (s : Setting) (at : ℕ) (r : Reading)
    → IsSetting s
    → take_line at (line s ++ b'\n' ∷ []) r
      ≡ some (record {
        buf = write r.buf (at + length (line s)) 0;
        conf = assign s (at + length (name s) + 1) r.conf;
      })
take_line-setting s at r is =
    let parts : split_delim (line s ++ b'\n' ∷ []) ≡ some (name s, value s ++ b'\n' ∷ []) =
      ap split_delim (append_assoc (name s) (b'=' ∷ value s) (b'\n' ∷ []))
      ∙ split_delim_key (name s) (value s ++ b'\n' ∷ []) (name-key s) in
    let last : at + length (line s ++ b'\n' ∷ []) - 1 ≡ at + length (line s) =
      omega (arith, length-append (line s) (b'\n' ∷ [])) in
    ap (take_parts at (line s ++ b'\n' ∷ []) r) parts
    ∙ rw
        (
          ends_line_last (line s),
          without_last_lem (line s) b'\n',
          without_last_lem (value s) b'\n',
          set-assign s (at + length (name s) + 1) r.conf is,
          last,
        )
        refl
