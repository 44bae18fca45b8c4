-- ===== src/Protocol/Reply.antt =====
-- What every response decoder begins with: the status and the field count, then fields of a seven
-- byte head and their data. Each decoder of the source repeats this code; `invalid` is its
-- `return invalid_response()`.
pub mod Encoding
pub mod Ends
pub mod Located
use rzgate.Prelude.{
  ℕ, ◌+◌, ◌≡◌, Bool, true, false, ◌||◌, not, List, [], ◌∷◌, ◌++◌, length, ltb, ◌==◌, if◌then◌else◌,
  equal,
}
use rzgate.Bytes.{Bytes, codes}
use rzgate.Flow.{Flow, next, invalid, ◌>>=◌, index, slice, read_u16, read_u32}

-- `if c { return invalid_response(); }`
abbrev pub reject_if : Bool → Flow (Unit {0})
reject_if true = invalid
reject_if false = next tt

infixl 5 ◌>>◌
abbrev pub ◌>>◌ {ℓ} : {B : Type ℓ} → Flow (Unit {0}) → Flow B → Flow B
m >> k = m >>= λ _. k

pub record Prologue : Type 0 where
  pub status : Bytes
  pub field_count : ℕ
  pub offset : ℕ

abbrev pub success : Bytes
success = codes "SUCCESS"

unfoldable pub read_prologue : Bytes → Flow Prologue
read_prologue bytes = do
  reject_if (length bytes == 0)
  status_len ← index bytes 0
  reject_if (ltb (length bytes) (1 + status_len + 2))
  status ← slice bytes 1 (1 + status_len)
  field_count ← read_u16 bytes (1 + status_len)
  next (record { status = status; field_count = field_count; offset = 1 + status_len + 2 })

pub record Head : Type 0 where
  pub id : ℕ
  pub field_type : ℕ
  pub len : ℕ

-- The head of the field at `offset`: id(2) | type(1) | length(4).
pub read_head : Bytes → ℕ → Flow Head
read_head bytes offset = do
  id ← read_u16 bytes offset
  field_type ← index bytes (offset + 2)
  len ← read_u32 bytes (offset + 3)
  next (record { id = id; field_type = field_type; len = len })
