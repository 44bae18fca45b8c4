-- ===== src/Processor/Json.antt =====
-- The `serde_json` crate, as far as the processors use it: a parameter of the model. A text is its
-- UTF-8 bytes and an f64 its bit pattern.
use rzgate.Prelude.{ℕ, Bool, Option, none, some, List, [], ◌∷◌}
use rzgate.Bytes.{Bytes}

pub record Json : Type 1 where
  pub Value : Type 0
  pub null : Value
  pub from_slice : Bytes → Option Value
  pub get : Value → Bytes → Option Value
  pub as_str : Value → Option Bytes
  pub as_u64 : Value → Option ℕ
  pub as_f64 : Value → Option ℕ
  pub as_array : Value → Option (List Value)
  pub is_object : Value → Bool

-- `Option::and_then`
abbrev pub and_then {ℓ κ} : {A : Type ℓ} {B : Type κ} → Option A → (A → Option B) → Option B
and_then none f = none
and_then (some a) f = f a

module _ (json : Json) where
  open json use {Value, get, as_str, as_u64, as_f64, as_array}

  -- `payload.get(key).and_then(|v| v.as_str())`
  abbrev pub text : Value → Bytes → Option Bytes
  text v key = and_then (get v key) as_str

  abbrev pub number : Value → Bytes → Option ℕ
  number v key = and_then (get v key) as_u64

  abbrev pub float : Value → Bytes → Option ℕ
  float v key = and_then (get v key) as_f64

  -- `arr.iter().filter_map(|v| v.as_str()).collect()`
  unfoldable pub texts_of : List Value → List Bytes
  texts_of [] = []
  texts_of (v ∷ vs) = let rest = texts_of vs in elim (as_str v) [ some s ↦ s ∷ rest | none ↦ rest ]

  -- The texts of an array; none if the key holds no array.
  abbrev pub texts : Value → Bytes → Option (List Bytes)
  texts v key = and_then (get v key) (λ a. and_then (as_array a) (λ vs. some (texts_of vs)))
