-- ===== src/Conf/Stops.antt =====
-- How read_conf of src/core/sgx_util.c ends on other files: on any file, and at a line without '='.
use sginx.Base.{
  ℕ, zero, suc, ◌+◌, ◌-◌, ◌≤◌, ◌<◌, ◌≡◌, ◌≢◌, ◌∙◌, refl, ap, false, Option, some, none, List, [],
  ◌∷◌, ◌++◌, arith, length, length-append, All, All-append, ◌==◌,
}
use sginx.Base.Run.{Returns, returns}
use sginx.Conf.{
  Conf, conf_error, Reading, Outcome, fgets_line, string_of, split_delim, take_line, take_parts,
  conf_loop, read_conf,
}
use sginx.Conf.Text.{fgets_line_whole, fgets_line-parts, string_of_whole}
use sginx.Conf.Settings.{Setting, IsSetting, name, line, assign, assign_all, All-map}
use sginx.Conf.Put.{put}
use sginx.Conf.Read.{resume, stored, round, conf_loop-round, conf_loop-line}

-- a file is left open only with an error
abbrev pub ClosedUnlessError : Outcome → Type 0
ClosedUnlessError o = o.closed ≡ false → o.code ≡ conf_error

resume-ends :
    (fuel len : ℕ) (rest : List ℕ) (next : ℕ) (now : Reading) (taken : Option Reading)
    → ((r : Reading) → Returns ClosedUnlessError (conf_loop fuel len rest next r))
    → Returns ClosedUnlessError (resume fuel len rest next now taken)
resume-ends fuel len rest next now none later = returns (λ e. refl)
resume-ends fuel len rest next now (some r) later = later r

conf_loop-ends :
    (fuel len : ℕ) (file : List ℕ) (at : ℕ) (r : Reading)
    → 1 < len
    → length file < fuel
    → Returns ClosedUnlessError (conf_loop fuel len file at r)
unfolding conf_loop
conf_loop-ends zero len file at r more lt = absurd (omega arith)
conf_loop-ends (suc fuel) len [] at r more lt = returns (λ e. cc e)
conf_loop-ends (suc fuel) len (c ∷ file) at r more lt =
    let got = fgets_line (len - 1) (c ∷ file) in
    let shorter = (fgets_line-parts (len - 1) (c ∷ file)).1 (omega arith) (omega arith) in
    resume-ends fuel len got.1 (at + length (string_of got.0)) (stored at r got.0)
      (take_line at (string_of got.0) (stored at r got.0))
      (λ r'.
        conf_loop-ends fuel len got.1 (at + length (string_of got.0)) r' more
          (omega (arith, shorter)))

-- With room for a character and its NUL, read_conf ends for every file; it leaves a file open only
-- when it returns SGX_CONF_ERR.
pub read_conf-ends :
    (file : Option (List ℕ)) (r : Reading) (len : ℕ)
    → 1 < len
    → Returns ClosedUnlessError (read_conf file r len)
unfolding read_conf
read_conf-ends none r len more = returns (λ e. refl)
read_conf-ends (some file) r len more =
    conf_loop-ends (length file + 1) len file 0 r more (omega arith)

-- a file of settings, then a line, then anything
abbrev pub broken_text : List Setting → (bad rest : List ℕ) → List ℕ
broken_text [] bad rest = bad ++ b'\n' ∷ rest
broken_text (s ∷ ss) bad rest = line s ++ b'\n' ∷ broken_text ss bad rest

split_delim-none : (cs : List ℕ) → All (λ c. c ≢ b'=') cs → split_delim cs ≡ none
unfolding split_delim
split_delim-none [] all = refl
split_delim-none (c ∷ cs) all =
    let other : (c == b'=') ≡ false = ground (arith, all.0) in
    rw (other, split_delim-none cs all.1) refl

-- what is left behind the error
abbrev pub Stopped : Conf → Outcome → Type 0
Stopped conf o = (o.code ≡ conf_error) × (o.closed ≡ false) × (o.reading.conf ≡ conf)

conf_loop-bad :
    (fuel len at : ℕ) (bad rest : List ℕ) (r : Reading)
    → All (λ c. (c ≢ 0) × (c ≢ b'\n')) bad
    → All (λ c. c ≢ b'=') bad
    → length bad + 2 ≤ len
    → Returns (Stopped r.conf) (conf_loop (suc fuel) len (bad ++ b'\n' ∷ rest) at r)
conf_loop-bad fuel len at bad rest r plain no_delim fits =
    let text = bad ++ b'\n' ∷ [] in
    let whole =
      fgets_line_whole (len - 1) bad rest (All-map _ _ bad (λ c both. both.1) plain)
        (omega arith) in
    let string : string_of text ≡ text = string_of_whole text (
      All-append (λ c. c ≢ 0) bad (b'\n' ∷ [])
        (All-map _ _ bad (λ c both. both.0) plain, (omega arith, tt))) in
    let none_there =
      split_delim-none text
        (All-append (λ c. c ≢ b'=') bad (b'\n' ∷ []) (no_delim, (omega arith, tt))) in
    let now = stored at r text in
    let run =
      conf_loop-round fuel len at (bad ++ b'\n' ∷ rest) r
        (omega (arith, length-append bad (b'\n' ∷ rest)))
      ∙ ap (λ (got : List ℕ × List ℕ). round fuel len at r got (string_of got.0)) whole
      ∙ ap (round fuel len at r (text, rest)) string
      ∙ ap (resume fuel len rest (at + length text) now) (ap (take_parts at text now) none_there) in
    rw run (returns (refl, refl, refl))

conf_loop-stops :
    (fuel len : ℕ) (ss : List Setting) (at : ℕ) (bad rest : List ℕ) (r : Reading)
    → length ss < fuel
    → All IsSetting ss
    → All (λ s. length (line s) + 2 ≤ len) ss
    → All (λ c. (c ≢ 0) × (c ≢ b'\n')) bad
    → All (λ c. c ≢ b'=') bad
    → length bad + 2 ≤ len
    → Returns
        (Stopped (assign_all at ss r.conf))
        (conf_loop fuel len (broken_text ss bad rest) at r)
conf_loop-stops zero len ss at bad rest r lt all fit plain no_delim fits = absurd (omega arith)
conf_loop-stops (suc fuel) len [] at bad rest r lt all fit plain no_delim fits =
    conf_loop-bad fuel len at bad rest r plain no_delim fits
conf_loop-stops (suc fuel) len (s ∷ ss) at bad rest r lt all fit plain no_delim fits =
    let next : Reading = record {
      buf = put r.buf at (line s);
      conf = assign s (at + length (name s) + 1) r.conf;
    } in
    rw (conf_loop-line fuel len at s (broken_text ss bad rest) r all.0 fit.0) (
      conf_loop-stops fuel len ss (at + length (line s) + 1) bad rest next (omega arith) all.1 fit.1
        plain no_delim fits)

broken_longer :
    (ss : List Setting) (bad rest : List ℕ) → length ss ≤ length (broken_text ss bad rest)
broken_longer [] bad rest = omega arith
broken_longer (s ∷ ss) bad rest =
    omega
      (arith, broken_longer ss bad rest, length-append (line s) (b'\n' ∷ broken_text ss bad rest))

-- A file of settings with a line without '=' behind them, and anything behind that; every line, with
-- its end, is shorter than `len`. Then read_conf returns SGX_CONF_ERR at that line and leaves the file
-- open; the settings before the line are in effect, those behind it are not.
pub read_conf-stops :
    (ss : List Setting) (bad rest : List ℕ) (r : Reading) (len : ℕ)
    → All IsSetting ss
    → All (λ s. length (line s) + 2 ≤ len) ss
    → All (λ c. (c ≢ 0) × (c ≢ b'\n')) bad
    → All (λ c. c ≢ b'=') bad
    → length bad + 2 ≤ len
    → Returns (Stopped (assign_all 0 ss r.conf)) (read_conf (some (broken_text ss bad rest)) r len)
unfolding read_conf
read_conf-stops ss bad rest r len all fit plain no_delim fits =
    conf_loop-stops (length (broken_text ss bad rest) + 1) len ss 0 bad rest r
      (omega (arith, broken_longer ss bad rest)) all fit plain no_delim fits
