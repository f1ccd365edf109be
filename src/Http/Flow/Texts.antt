-- ===== src/Http/Flow/Texts.antt =====
-- The texts of header fields and what the handlers take them for.
use sginx.Base.{
  ℕ, suc, ◌+◌, ◌-◌, ◌%◌, ◌≤◌, ◌<◌, ◌≡◌, refl, subst, ap, ◌∙◌, Bool, true, false, not, ◌&&◌, ◌||◌,
  List, [], ◌∷◌, ◌++◌, arith, length, length-append, ◌==◌, if◌then◌else◌, All,
}
use sginx.Http.{Request, at}
use sginx.Http.Loop.Feed.{Reads}
use sginx.Http.Headers.Accept.{
  Field, field_text, key_stop, value_begin, value_stop, field_stop, header_at, with_field,
  block_text, with_fields,
}
use sginx.Http.Handle.{
  same_text, identity, lower, host_name, connection_name, keep_alive_text, bytes_from, distance,
}
use sginx.Http.Handle.Fields.{IsPlaced, placed, asks_keep_alive, any_of}

-- a text that is taken for a name: it is a beginning of the name, or goes on with NUL behind it
abbrev pub taken_for : (ℕ → ℕ) → List ℕ → List ℕ → Bool
taken_for fold [] name = true
taken_for fold (c ∷ cs) [] = c == 0
taken_for fold (c ∷ cs) (d ∷ name) = if fold c == fold d then taken_for fold cs name else false

abbrev pub key_text : Field → List ℕ
key_text f = f.key_head ∷ f.key_tail

abbrev pub value_text : Field → List ℕ
value_text f = f.value_head ∷ f.value_tail

-- the field asks to keep the connection
abbrev pub field_asks : Field → Bool
field_asks f =
    not (taken_for identity (key_text f) host_name)
    && taken_for identity (key_text f) connection_name
    && taken_for lower (value_text f) keep_alive_text

abbrev pub some_field_asks : List Field → Bool
some_field_asks [] = false
some_field_asks (f ∷ fs) = field_asks f || some_field_asks fs

-- the memory `s` begins with the text
abbrev Begins : (ℕ → ℕ) → List ℕ → Type 0
Begins s [] = Unit
Begins s (c ∷ cs) = (s 0 ≡ c) × Begins (λ i. s (suc i)) cs

same_text-Begins :
    (fold : ℕ → ℕ) (s : ℕ → ℕ) (cs name : List ℕ)
    → Begins s cs
    → same_text fold (length cs) s name ≡ taken_for fold cs name
unfolding same_text
same_text-Begins fold s [] name b = refl
same_text-Begins fold s (c ∷ cs) [] b = rw b.0 refl
same_text-Begins fold s (c ∷ cs) (d ∷ name) b =
    rw (b.0, same_text-Begins fold (λ i. s (suc i)) cs name b.1) refl

Reads-Begins :
    (buf s : ℕ → ℕ) (pos : ℕ) (cs : List ℕ)
    → Reads buf pos cs
    → ((i : ℕ) → i < length cs → s i ≡ buf ((pos + i) % 8124))
    → Begins s cs
Reads-Begins buf s pos [] reads same = tt
Reads-Begins buf s pos (c ∷ cs) reads same =
    let here : pos + 0 ≡ pos = omega arith in
    (
      same 0 (omega arith) ∙ ap (λ p. buf (p % 8124)) here ∙ reads.0,
      Reads-Begins buf (λ i. s (suc i)) (pos + 1) cs reads.1
          (λ i lt.
            let there : pos + suc i ≡ pos + 1 + i = omega arith in
            same (suc i) (omega arith) ∙ ap (λ p. buf (p % 8124)) there),
    )

pub Reads-append :
    (buf : ℕ → ℕ) (pos stop : ℕ) (xs ys : List ℕ)
    → Reads buf pos (xs ++ ys)
    → stop ≡ pos + length xs
    → Reads buf pos xs × Reads buf stop ys
Reads-append buf pos stop [] ys reads e =
    let here : pos ≡ stop = omega arith in (tt, subst (λ p. Reads buf p ys) here reads)
Reads-append buf pos stop (x ∷ xs) ys reads e =
    let (front, back) = Reads-append buf (pos + 1) stop xs ys reads.1 (omega arith) in
    ((reads.0, front), back)

-- a text that lies in the ring without a break
text_taken :
    (fold : ℕ → ℕ) (r : Request) (pos stop : ℕ) (cs name : List ℕ)
    → Reads r.buf pos cs
    → stop ≡ pos + length cs
    → pos % 8124 + length cs < 8124
    → same_text fold (distance (at pos) (at stop)) (bytes_from r (at pos)) name
      ≡ taken_for fold cs name
text_taken fold r pos stop cs name reads e fits =
    let size : distance (at pos) (at stop) ≡ length cs = omega arith in
    rw size (
      same_text-Begins fold (bytes_from r (at pos)) cs name
        (Reads-Begins r.buf (bytes_from r (at pos)) pos cs reads (λ i lt. ap r.buf (omega arith))))

-- the texts of a field in the ring: its key, its value, and what follows
field_parts :
    (buf : ℕ → ℕ) (f : Field) (pos : ℕ) (rest : List ℕ)
    → Reads buf pos (field_text f rest)
    → Reads buf pos (key_text f)
      × Reads buf (value_begin f pos) (value_text f)
      × Reads buf (field_stop f pos) rest
field_parts buf f pos rest reads =
    let (keys, colon) = Reads-append buf (pos + 1) (key_stop f pos) f.key_tail _ reads.1 refl in
    let (gap, values) =
      Reads-append buf (key_stop f pos + 1) (value_begin f pos) f.gap _ colon.1 refl in
    let (tail, ends) =
      Reads-append buf (value_begin f pos + 1) (value_stop f pos) f.value_tail _ values.1 refl in
    ((reads.0, keys), (values.0, tail), ends.1.1)

asks_field :
    (r : Request) (f : Field) (pos : ℕ)
    → Reads r.buf pos (key_text f)
    → Reads r.buf (value_begin f pos) (value_text f)
    → pos % 8124 + (value_stop f pos + 1 - pos) < 8124
    → asks_keep_alive r (header_at f pos) ≡ field_asks f
asks_field r f pos keys values fits =
    let key_of = λ (name : List ℕ).
      text_taken identity r pos (key_stop f pos) (key_text f) name keys (omega arith)
        (omega arith) in
    let value_of =
      text_taken lower r (value_begin f pos) (value_stop f pos) (value_text f) keep_alive_text
        values (omega arith) (omega arith) in
    rw (key_of host_name, key_of connection_name, value_of) refl

length-field_text :
    (f : Field) (pos : ℕ) (rest : List ℕ)
    → pos + length (field_text f rest) ≡ field_stop f pos + length rest
length-field_text f pos rest = omega (
  arith,
  length-append f.key_tail (58 ∷ (f.gap ++ f.value_head ∷ (f.value_tail ++ 13 ∷ 10 ∷ rest))),
  length-append f.gap (f.value_head ∷ (f.value_tail ++ 13 ∷ 10 ∷ rest)),
  length-append f.value_tail (13 ∷ 10 ∷ rest),
)

block_text_ends : (fs : List Field) → 2 ≤ length (block_text fs)
block_text_ends [] = omega arith
block_text_ends (f ∷ fs) = omega (arith, length-field_text f 0 (block_text fs), block_text_ends fs)

or_turn : (x y z : Bool) → x || (y || z) ≡ (y || x) || z
or_turn true true z = refl
or_turn true false z = refl
or_turn false true z = refl
or_turn false false z = refl

-- the headers that the parser stores for the fields, before those of the request
pub headers_ask :
    (fs : List Field) (pos : ℕ) (r q : Request)
    → Reads r.buf pos (block_text fs)
    → pos % 8124 + length (block_text fs) ≤ 8124
    → any_of (asks_keep_alive r) (with_fields fs pos q).list
      ≡ some_field_asks fs || any_of (asks_keep_alive r) q.list
headers_ask [] pos r q reads fits = refl
headers_ask (f ∷ fs) pos r q reads fits =
    let (keys, values, rest) = field_parts r.buf f pos (block_text fs) reads in
    let size = length-field_text f pos (block_text fs) in
    let ends = block_text_ends fs in
    headers_ask fs (field_stop f pos) r (with_field f pos q) rest (omega (arith, size, ends))
    ∙ rw (asks_field r f pos keys values (omega (arith, size, ends)))
        (or_turn (some_field_asks fs) (field_asks f) (any_of (asks_keep_alive r) q.list))

pub fields-IsPlaced :
    (fs : List Field) (pos : ℕ) (q : Request)
    → All IsPlaced q.list
    → All IsPlaced (with_fields fs pos q).list
fields-IsPlaced [] pos q all = all
fields-IsPlaced (f ∷ fs) pos q all =
    fields-IsPlaced fs (field_stop f pos) (with_field f pos q) (placed _ _ _ _, all)
