-- ===== src/Conf/Text.antt =====
-- The C functions on strings that read_conf of src/core/sgx_util.c calls, on the texts they are made for.
use sginx.Base.{
  ℕ, zero, suc, ◌+◌, ◌-◌, ◌*◌, ◌^◌, ◌≤◌, ◌<◌, ◌≡◌, ◌≢◌, refl, ap, Bool, true, false, if◌then◌else◌,
  length-append, some, List, [], ◌∷◌, ◌++◌, arith, ◌==◌, length, All,
}
use sginx.Conf.{
  fgets_line, string_of, split_delim, ends_line, without_last, digits, atoi, is_digit, is_space,
}

pub fgets_line_whole :
    (most : ℕ) (cs rest : List ℕ)
    → All (λ c. c ≢ b'\n') cs
    → length cs < most
    → fgets_line most (cs ++ b'\n' ∷ rest) ≡ (cs ++ b'\n' ∷ [], rest)
unfolding fgets_line
fgets_line_whole zero cs rest all lt = absurd (omega arith)
fgets_line_whole (suc most) [] rest all lt = refl
fgets_line_whole (suc most) (c ∷ cs) rest all lt =
    let other : (c == b'\n') ≡ false = ground (arith, all.0) in
    rw (fgets_line_whole most cs rest all.1 (omega arith), other) refl

parts-round :
    (b : Bool) (c : ℕ) (file line rest : List ℕ)
    → line ++ rest ≡ file
    → let got : List ℕ × List ℕ = if b then (c ∷ [], file) else (c ∷ line, rest) in
      (got.0 ++ got.1 ≡ c ∷ file) × (length got.1 < suc (length file))
parts-round true c file line rest e = (refl, omega arith)
parts-round false c file line rest e =
    (ap (λ later. c ∷ later) e, omega (arith, ap length e, length-append line rest))

-- fgets takes a line off the file, and a byte of it at least
pub fgets_line-parts :
    (most : ℕ) (file : List ℕ)
    → let (line, rest) = fgets_line most file in
      (line ++ rest ≡ file) × (0 < most → 0 < length file → length rest < length file)
unfolding fgets_line
fgets_line-parts zero file = (refl, λ pos some_bytes. absurd (omega arith))
fgets_line-parts (suc most) [] = (refl, λ pos some_bytes. absurd (omega arith))
fgets_line-parts (suc most) (c ∷ file) =
    let (line, rest) = fgets_line most file in
    let (whole, shorter) =
      parts-round (c == b'\n') c file line rest (fgets_line-parts most file).0 in
    (whole, λ pos some_bytes. shorter)

pub string_of_whole : (cs : List ℕ) → All (λ c. c ≢ 0) cs → string_of cs ≡ cs
unfolding string_of
string_of_whole [] all = refl
string_of_whole (c ∷ cs) all =
    let other : (c == 0) ≡ false = ground (arith, all.0) in
    rw (string_of_whole cs all.1, other) refl

pub split_delim_key :
    (key value : List ℕ)
    → All (λ c. c ≢ b'=') key
    → split_delim (key ++ b'=' ∷ value) ≡ some (key, value)
unfolding split_delim
split_delim_key [] value all = refl
split_delim_key (c ∷ key) value all =
    let other : (c == b'=') ≡ false = ground (arith, all.0) in
    rw (split_delim_key key value all.1, other) refl

pub ends_line_last : (cs : List ℕ) → ends_line (cs ++ b'\n' ∷ []) ≡ true
ends_line_last [] = refl
ends_line_last (c ∷ []) = refl
ends_line_last (c ∷ d ∷ cs) = ends_line_last (d ∷ cs)

pub without_last_lem : (cs : List ℕ) (c : ℕ) → without_last (cs ++ c ∷ []) ≡ cs
without_last_lem [] c = refl
without_last_lem (d ∷ []) c = refl
without_last_lem (d ∷ e ∷ cs) c = ap (λ rest. d ∷ rest) (without_last_lem (e ∷ cs) c)

abbrev pub Digit : ℕ → Type 0
Digit c = (b'0' ≤ c) × (c ≤ b'9')

-- the number that decimal digits write, behind those that gave `v`
abbrev pub decimal : ℕ → List ℕ → ℕ
decimal v [] = v
decimal v (c ∷ cs) = decimal (v * 10 + (c - b'0')) cs

digits-decimal : (v : ℕ) (cs : List ℕ) → All Digit cs → digits v cs ≡ decimal v cs
unfolding digits
digits-decimal v [] all = refl
digits-decimal v (c ∷ cs) all =
    let digit : is_digit c ≡ true = ground (arith, all.0) in
    rw (digit, digits-decimal (v * 10 + (c - b'0')) cs all.1) refl

pub atoi-decimal :
    (c : ℕ) (cs : List ℕ)
    → All Digit (c ∷ cs)
    → decimal 0 (c ∷ cs) < 2 ^ 31
    → atoi (c ∷ cs) ≡ decimal 0 (c ∷ cs)
unfolding atoi
atoi-decimal c cs all small =
    let shown : is_space c ≡ false = ground (arith, all.0) in
    let plus : (c == b'+') ≡ false = ground (arith, all.0) in
    let minus : (c == b'-') ≡ false = ground (arith, all.0) in
    rw (shown, minus, plus, digits-decimal 0 (c ∷ cs) all) (omega arith)
