-- ===== src/Conf/Read.antt =====
-- The loop of read_conf of src/core/sgx_util.c over the lines of a file of settings.
use sginx.Base.{
  ℕ, zero, suc, ◌+◌, ◌-◌, ◌≤◌, ◌<◌, ◌≡◌, ◌≢◌, inl, inr, refl, ap, sym, ◌∙◌, true, false, Option,
  some, none, List, [], ◌∷◌, ◌++◌, arith, length, length-append, All, All-append, append_assoc,
  fill, cell, Bool-cases, ltb,
}
use sginx.Base.Run.{Run, ok, Returns, returns, Returns-map}
use sginx.Base.Fill.{cell-front, cell-back}
use sginx.Conf.{
  conf_ok, conf_error, Reading, Outcome, fgets_line, string_of, take_line, conf_loop, read_conf,
}
use sginx.Conf.Put.{put, put-IsPut}
use sginx.Conf.Text.{fgets_line_whole, string_of_whole}
use sginx.Conf.Settings.{
  Setting, IsSetting, name, line, file_text, strings, assign, assign_all, line-plain, All-map,
  take_line-setting,
}

-- what reading the lines leaves, from an offset in the buffer on
pub record IsRead (at : ℕ) (ss : List Setting) (r : Reading) (o : Outcome) : Type 0 where
  pub code : o.code ≡ conf_ok
  pub closed : o.closed ≡ true
  pub conf : o.reading.conf ≡ assign_all at ss r.conf
  pub texts : (k : ℕ) → k < length (strings ss) → o.reading.buf (at + k) ≡ cell (strings ss) k
  pub idle : length ss ≡ 0 → o.reading.buf at ≡ r.buf at
  pub last : 0 < length ss → o.reading.buf (at + length (strings ss)) ≡ 0
  pub before : (i : ℕ) → i < at → o.reading.buf i ≡ r.buf i
  pub behind : (i : ℕ) → at + length (strings ss) < i → o.reading.buf i ≡ r.buf i

-- the rest of a round, for what fgets has read, the string that this is, and what becomes of it
abbrev pub resume : ℕ → ℕ → List ℕ → ℕ → Reading → Option Reading → Run Outcome
resume fuel len rest next stored taken = elim taken [
  | none ↦ ok (record { code = conf_error; closed = false; reading = stored })
  | some r ↦ conf_loop fuel len rest next r
]

abbrev pub stored : ℕ → Reading → List ℕ → Reading
stored at r text = record r { buf = fill r.buf at (text ++ 0 ∷ []) }

abbrev pub round : ℕ → ℕ → ℕ → Reading → List ℕ × List ℕ → List ℕ → Run Outcome
round fuel len at r (text, rest) string =
    resume fuel len rest (at + length string) (stored at r text)
      (take_line at string (stored at r text))

pub conf_loop-round :
    (fuel len at : ℕ) (file : List ℕ) (r : Reading)
    → 0 < length file
    → let got = fgets_line (len - 1) file in
      conf_loop (suc fuel) len file at r ≡ round fuel len at r got (string_of got.0)
unfolding conf_loop
conf_loop-round fuel len at [] r pos = absurd (omega arith)
conf_loop-round fuel len at (c ∷ file) r pos = refl

-- a round of the loop for a line
pub conf_loop-line :
    (fuel len at : ℕ) (s : Setting) (file : List ℕ) (r : Reading)
    → IsSetting s
    → length (line s) + 2 ≤ len
    → conf_loop (suc fuel) len (line s ++ b'\n' ∷ file) at r
      ≡ conf_loop fuel len file (at + length (line s) + 1) (record {
        buf = put r.buf at (line s);
        conf = assign s (at + length (name s) + 1) r.conf;
      })
conf_loop-line fuel len at s file r is fits =
    let next : Reading = record {
      buf = put r.buf at (line s);
      conf = assign s (at + length (name s) + 1) r.conf;
    } in
    let plain = line-plain s is in
    let text = line s ++ b'\n' ∷ [] in
    let whole =
      fgets_line_whole (len - 1) (line s) file (All-map _ _ (line s) (λ c both. both.1) plain)
        (omega arith) in
    let string : string_of text ≡ text = string_of_whole text (
      All-append (λ c. c ≢ 0) (line s) (b'\n' ∷ [])
        (All-map _ _ (line s) (λ c both. both.0) plain, (omega arith, tt))) in
    let size : at + length text ≡ at + length (line s) + 1 =
      omega (arith, length-append (line s) (b'\n' ∷ [])) in
    conf_loop-round fuel len at (line s ++ b'\n' ∷ file) r
      (omega (arith, length-append (line s) (b'\n' ∷ file)))
    ∙ ap (λ (got : List ℕ × List ℕ). round fuel len at r got (string_of got.0)) whole
    ∙ ap (round fuel len at r (text, file)) string
    ∙ ap (resume fuel len file (at + length text) (stored at r text))
        (take_line-setting s at (stored at r text) is)
    ∙ ap (λ n. conf_loop fuel len file n next) size

length-strings : (ss : List Setting) → length (strings ss) ≡ length (file_text ss)
length-strings [] = refl
length-strings (s ∷ ss) = omega (
  arith,
  length-strings ss,
  length-append (line s) (0 ∷ strings ss),
  length-append (line s) (b'\n' ∷ file_text ss),
)

no_strings : (ss : List Setting) → length ss ≡ 0 → length (strings ss) ≡ 0
no_strings [] e = refl
no_strings (s ∷ ss) e = absurd (omega arith)

IsRead-cons :
    (at : ℕ) (s : Setting) (ss : List Setting) (r : Reading) (o : Outcome)
    → IsRead
        (at + length (line s) + 1)
        ss
        (record { buf = put r.buf at (line s); conf = assign s (at + length (name s) + 1) r.conf })
        o
    → IsRead at (s ∷ ss) r o
IsRead-cons at s ss r o rest =
    let first = put-IsPut r.buf at (line s) in
    let size = length-append (line s) (0 ∷ strings ss) in
    let joined = append_assoc (line s) (0 ∷ []) (strings ss) in
    let size' = length-append (line s) (0 ∷ []) in
    record {
      code = rest.code;
      closed = rest.closed;
      conf = rest.conf;
      texts = λ k lt. elim (Bool-cases (ltb k (length (line s) + 1))) [
        | inl e ↦
            let low : k ≤ length (line s) = ground arith in
            rest.before (at + k) (omega arith)
            ∙ first.inside k low
            ∙ sym (cell-front (line s ++ 0 ∷ []) (strings ss) k (omega (arith, size')))
            ∙ ap (λ cs. cell cs k) joined
        | inr e ↦
            let high : length (line s) + 1 ≤ k = ground arith in
            let j = k - (length (line s) + 1) in
            ap o.reading.buf (omega arith)
            ∙ rest.texts j (omega (arith, size))
            ∙ sym (cell-back (line s ++ 0 ∷ []) (strings ss) j k (omega (arith, size')))
            ∙ ap (λ cs. cell cs k) joined
      ];
      idle = λ e. absurd (omega arith);
      last = λ pos. elim (Bool-cases (ltb 0 (length ss))) [
        | inl e ↦ ap o.reading.buf (omega (arith, size)) ∙ rest.last (ground arith)
        | inr e ↦
            let empty : length ss ≡ 0 = ground arith in
            ap o.reading.buf (omega (arith, size, no_strings ss empty))
            ∙ rest.idle empty
            ∙ first.last
      ];
      before = λ i lt. rest.before i (omega arith) ∙ first.before i lt;
      behind = λ i lt. rest.behind i (omega (arith, size)) ∙ first.behind i (omega (arith, size));
    }

conf_loop-IsRead :
    (fuel len : ℕ) (ss : List Setting) (at : ℕ) (r : Reading)
    → length ss < fuel
    → All IsSetting ss
    → All (λ s. length (line s) + 2 ≤ len) ss
    → Returns (IsRead at ss r) (conf_loop fuel len (file_text ss) at r)
unfolding conf_loop
conf_loop-IsRead zero len ss at r lt all fit = absurd (omega arith)
conf_loop-IsRead (suc fuel) len [] at r lt all fit = returns (record {
  code = refl;
  closed = refl;
  conf = refl;
  texts = λ k le. absurd (omega arith);
  idle = λ e. refl;
  last = λ pos. absurd (omega arith);
  before = λ i h. refl;
  behind = λ i h. refl;
})
conf_loop-IsRead (suc fuel) len (s ∷ ss) at r lt all fit =
    rw (conf_loop-line fuel len at s (file_text ss) r all.0 fit.0) (
      Returns-map
        (conf_loop-IsRead fuel len ss (at + length (line s) + 1) _ (omega arith) all.1 fit.1)
        (λ o rest. IsRead-cons at s ss r o rest))

lines_shorter : (ss : List Setting) → length ss ≤ length (file_text ss)
lines_shorter [] = omega arith
lines_shorter (s ∷ ss) =
    omega (arith, lines_shorter ss, length-append (line s) (b'\n' ∷ file_text ss))

-- A file of settings whose lines, with their ends, are shorter than `len` is read to its end and
-- closed. Every line sets its field, a later line over an earlier one. The buffer holds the lines as
-- strings one behind the other, so that the root directory is the string at `root`. One NUL more is
-- stored behind the last line, wherever that is and whatever `len` is; what lies behind it is kept.
pub read_conf-IsRead :
    (ss : List Setting) (r : Reading) (len : ℕ)
    → All IsSetting ss
    → All (λ s. length (line s) + 2 ≤ len) ss
    → Returns (IsRead 0 ss r) (read_conf (some (file_text ss)) r len)
unfolding read_conf
read_conf-IsRead ss r len all fit =
    let rounds : length (file_text ss) + 1 ≡ suc (length (file_text ss)) = omega arith in
    rw rounds (
      conf_loop-IsRead (suc (length (file_text ss))) len ss 0 r (omega (arith, lines_shorter ss))
        all fit)
