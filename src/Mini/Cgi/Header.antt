-- ===== src/Mini/Cgi/Header.antt =====
-- A header line in the buffer of sgx_request_cgi of src/test/sgx_mini.c.
use sginx.Base.{
  ℕ, zero, suc, ◌+◌, ◌<◌, ◌≤◌, ◌≡◌, ◌≢◌, subst, refl, ap, Bool, true, false, ◌⊎◌, List, [], ◌∷◌,
  ◌==◌, ltb, Bool-cases, inl, inr, arith, length, if◌then◌else◌, write, All, fill,
}
use sginx.Base.Run.{ok}
use sginx.Conf.{atoi}
use sginx.Mini.{int_buf, finish}
use sginx.Mini.Request.{same_word}
use sginx.Mini.Request.Words.{Has}
use sginx.Mini.Serve.Headers.{IsHeader}
use sginx.Mini.Serve.RequestLine.{finish-Has}
use sginx.Mini.Cgi.{text_at, header_length, length_name}

abbrev pub take : ℕ → List ℕ → List ℕ
take zero cs = []
take (suc n) [] = []
take (suc n) (c ∷ cs) = c ∷ take n cs

abbrev pub drop : ℕ → List ℕ → List ℕ
drop zero cs = cs
drop (suc n) [] = []
drop (suc n) (c ∷ cs) = drop n cs

-- a header line is the name of the length
abbrev pub tells : List ℕ → Bool
tells h = same_word (take 15 h) length_name

-- the length that the last such header gives, as an int of 32 bits
abbrev pub told : List (List ℕ) → ℕ → ℕ
told [] contlen = contlen
told (h ∷ hs) contlen = told hs (if tells h then atoi (drop 16 h) else contlen)

-- a header line that fits, holds no NUL, and does not end behind the colon of Content-Length
pub record IsText (h : List ℕ) : Type 0 where
  pub header : IsHeader h
  pub no_nul : All (λ c. c ≢ 0) h
  pub reaches : tells h ≡ true → 16 ≤ length h

Has-take : (buf : ℕ → ℕ) (i n : ℕ) (cs : List ℕ) → Has buf i cs → Has buf i (take n cs)
Has-take buf i zero cs has = tt
Has-take buf i (suc n) [] has = tt
Has-take buf i (suc n) (c ∷ cs) has = (has.0, Has-take buf (suc i) n cs has.1)

Has-drop :
    (buf : ℕ → ℕ) (i n j : ℕ) (cs : List ℕ) → Has buf i cs → j ≡ i + n → Has buf j (drop n cs)
Has-drop buf i zero j cs has e =
    let here : i ≡ j = omega arith in subst (λ k. Has buf k cs) here has
Has-drop buf i (suc n) j [] has e = tt
Has-drop buf i (suc n) j (c ∷ cs) has e = Has-drop buf (suc i) n j cs has.1 (omega arith)

All-take {ℓ} : (P : ℕ → Type ℓ) (n : ℕ) (cs : List ℕ) → All P cs → All P (take n cs)
All-take P zero cs all = tt
All-take P (suc n) [] all = tt
All-take P (suc n) (c ∷ cs) all = (all.0, All-take P n cs all.1)

All-drop {ℓ} : (P : ℕ → Type ℓ) (n : ℕ) (cs : List ℕ) → All P cs → All P (drop n cs)
All-drop P zero cs all = all
All-drop P (suc n) [] all = tt
All-drop P (suc n) (c ∷ cs) all = All-drop P n cs all.1

take_whole : (n : ℕ) (cs : List ℕ) → length cs ≤ n → take n cs ≡ cs
take_whole zero [] le = refl
take_whole zero (c ∷ cs) le = absurd (omega arith)
take_whole (suc n) [] le = refl
take_whole (suc n) (c ∷ cs) le = ap (λ more. c ∷ more) (take_whole n cs (omega arith))

length-take : (n : ℕ) (cs : List ℕ) → n ≤ length cs → length (take n cs) ≡ n
length-take zero cs le = refl
length-take (suc n) [] le = absurd (omega arith)
length-take (suc n) (c ∷ cs) le = ap suc (length-take n cs (omega arith))

length-drop : (n : ℕ) (cs : List ℕ) → n ≤ length cs → n + length (drop n cs) ≡ length cs
length-drop zero cs le = omega arith
length-drop (suc n) [] le = absurd (omega arith)
length-drop (suc n) (c ∷ cs) le = omega (arith, length-drop n cs (omega arith))

Has-write :
    (buf : ℕ → ℕ) (i n v : ℕ) (cs : List ℕ)
    → (n < i) ⊎ (i + length cs ≤ n)
    → Has buf i cs
    → Has (write buf n v) i cs
Has-write buf i n v [] apart has = tt
Has-write buf i n v (c ∷ cs) apart has =
    (ground (arith, apart, has.0), Has-write buf (suc i) n v cs (ground (arith, apart)) has.1)

text_at-Has :
    (room : ℕ) (buf : ℕ → ℕ) (i j : ℕ) (cs : List ℕ)
    → Has buf i cs
    → All (λ c. c ≢ 0) cs
    → buf j ≡ 0
    → j ≡ i + length cs
    → length cs < room
    → text_at room buf i ≡ ok cs
unfolding text_at
text_at-Has zero buf i j cs has all nul e lt = absurd (omega arith)
text_at-Has (suc room) buf i j [] has all nul e lt =
    let here : (buf i == 0) ≡ true = (let same : i ≡ j = omega arith in rw (same, nul) refl) in
    rw here refl
text_at-Has (suc room) buf i j (c ∷ cs) has all nul e lt =
    let there : (buf i == 0) ≡ false = ground (arith, has.0, all.0) in
    rw (there, text_at-Has room buf (suc i) j cs has.1 all.1 nul (omega arith) (omega arith), has.0)
      refl

name-text :
    (h : List ℕ) (b : ℕ → ℕ)
    → Has b 0 h
    → All (λ c. c ≢ 0) h
    → length h < 1023
    → b (length h) ≡ 0
    → text_at int_buf (write b 15 0) 0 ≡ ok (take 15 h)
name-text h b has no_nul small nul =
    let all = All-take (λ c. c ≢ 0) 15 h no_nul in
    elim (Bool-cases (ltb (length h) 15)) [
      | inl e ↦
          let size = ap length (take_whole 15 h (ground (arith, e))) in
          let has' =
            Has-write b 0 15 0 (take 15 h) (inr (ground (arith, e, size)))
              (Has-take b 0 15 h has) in
          text_at-Has int_buf (write b 15 0) 0 (length h) (take 15 h) has' all
            (ground (arith, e, nul)) (omega (arith, size)) (omega (arith, size))
      | inr e ↦
          let size = length-take 15 h (ground (arith, e)) in
          let has' =
            Has-write b 0 15 0 (take 15 h) (inr (omega (arith, size))) (Has-take b 0 15 h has) in
          text_at-Has int_buf (write b 15 0) 0 15 (take 15 h) has' all (ground arith)
            (omega (arith, size)) (omega (arith, size))
    ]

value-text :
    (h : List ℕ) (b : ℕ → ℕ)
    → Has b 0 h
    → All (λ c. c ≢ 0) h
    → length h < 1023
    → 16 ≤ length h
    → b (length h) ≡ 0
    → text_at 1008 (write b 15 0) 16 ≡ ok (drop 16 h)
value-text h b has no_nul small reaches nul =
    let size = length-drop 16 h reaches in
    let has' =
      Has-write b 16 15 0 (drop 16 h) (inl (omega arith))
        (Has-drop b 0 16 16 h has (omega arith)) in
    text_at-Has 1008 (write b 15 0) 16 (length h) (drop 16 h) has'
      (All-drop (λ c. c ≢ 0) 16 h no_nul) (ground (arith, reaches, nul)) (omega (arith, size))
      (omega (arith, size))

pub header_length-told :
    (h left : List ℕ) (buf : ℕ → ℕ) (contlen : ℕ)
    → IsText h
    → header_length (write (finish (fill buf 0 h) (length h) left).buf 15 0) contlen
      ≡ ok (if tells h then atoi (drop 16 h) else contlen)
header_length-told h left buf contlen is =
    let b = (finish (fill buf 0 h) (length h) left).buf in
    let has = finish-Has buf h left in
    let nul : b (length h) ≡ 0 = ground arith in
    let name = name-text h b has is.no_nul is.header.small nul in
    elim (Bool-cases (tells h)) [
      | inr e ↦ rw (name, e) refl
      | inl e ↦ rw (name, e, value-text h b has is.no_nul is.header.small (is.reaches e) nul) refl
    ]
