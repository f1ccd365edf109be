-- ===== src/Base/Run.antt =====
-- How a call of C code ends in the model, and the rules for calls that end well.
use mathlib.Core.Path.{◌≡◌, refl}

-- An access outside an allocated block or through a null pointer, a loop that used up the rounds
-- that the model grants it, or a value that the call returns.
pub data Run {ℓ} (A : Type ℓ) : Type ℓ where
  fault : Run A
  out_of_fuel : Run A
  ok : A → Run A

-- The second call is made with the value of the first.
infixl 5 ◌>>=◌
abbrev pub ◌>>=◌ {ℓ ℓ'} : {S : Type ℓ} {T : Type ℓ'} → Run S → (S → Run T) → Run T
first >>= second = elim first [ fault ↦ fault | out_of_fuel ↦ out_of_fuel | ok s ↦ second s ]

-- The call returns a value of which `Good` holds.
pub data Returns {ℓ ℓ'} {S : Type ℓ} (Good : S → Type ℓ') (call : Run S) : Type (ℓ ⊔ ℓ') where
  with_value : (s : S) → call ≡ ok s → Good s → Returns Good call

pub returns {ℓ ℓ'} : {S : Type ℓ} {Good : S → Type ℓ'} {s : S} → Good s → Returns Good (ok s)
returns good = with_value _ refl good

pub Returns-map {ℓ ℓ' ℓ''} :
    {S : Type ℓ} {Good : S → Type ℓ'} {Fine : S → Type ℓ''} {call : Run S}
    → Returns Good call
    → ((s : S) → Good s → Fine s)
    → Returns Fine call
Returns-map (with_value s e good) weaken = with_value s e (weaken s good)

pub Returns-bind {ℓ ℓ' κ κ'} :
    {S : Type ℓ} {T : Type κ} {Good : S → Type ℓ'} {Fine : T → Type κ'} {first : Run S}
    {second : S → Run T}
    → Returns Good first
    → ((s : S) → Good s → Returns Fine (second s))
    → Returns Fine (first >>= second)
Returns-bind (with_value s e good) next = rw e (next s good)
