-- ===== src/Flow.antt =====
-- The control flow of a response decoder: it goes on with a value, takes the early exit
-- `return invalid_response()`, or panics on an index or a slice that is out of bounds.
-- `stuck` is no outcome of the code: a loop of the model ran out of fuel.
pub mod Rules
pub mod Append
use rzgate.Prelude.{
  ℕ, ◌+◌, ◌-◌, ◌≤◌, Bool, true, false, ◌&&◌, Option, none, some, List, [], ◌∷◌, leb, ltb, take,
  drop, length, get_elem?, if◌then◌else◌,
}
use rzgate.Bytes.{Bytes, from_u16_le, from_u32_le}

pub data Flow {ℓ} (A : Type ℓ) : Type ℓ where
  next : A → Flow A
  invalid : Flow A
  panic : Flow A
  stuck : Flow A

infixl 5 ◌>>=◌
abbrev pub ◌>>=◌ {ℓ κ} : {A : Type ℓ} {B : Type κ} → Flow A → (A → Flow B) → Flow B
next a >>= f = f a
invalid >>= f = invalid
panic >>= f = panic
stuck >>= f = stuck

abbrev pub or_panic {ℓ} : {A : Type ℓ} → Option A → Flow A
or_panic none = panic
or_panic (some a) = next a

-- `data[i]`
unfoldable pub index : Bytes → ℕ → Flow ℕ
index bytes i = or_panic (get_elem? bytes i)

-- `&data[a..b]`
unfoldable pub slice : Bytes → ℕ → ℕ → Flow Bytes
slice bytes a b =
    if leb a b && leb b (length bytes) then next (take (b - a) (drop a bytes)) else panic

-- `u16::from_le_bytes([data[i], data[i + 1]])`
unfoldable pub read_u16 : Bytes → ℕ → Flow ℕ
read_u16 bytes i = do a ← index bytes i; b ← index bytes (i + 1); next (from_u16_le a b)

-- `u32::from_le_bytes([data[i], data[i + 1], data[i + 2], data[i + 3]])`
unfoldable pub read_u32 : Bytes → ℕ → Flow ℕ
read_u32 bytes i = do
  a ← index bytes i
  b ← index bytes (i + 1)
  c ← index bytes (i + 2)
  d ← index bytes (i + 3)
  next (from_u32_le a b c d)
