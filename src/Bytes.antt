-- ===== src/Bytes.antt =====
-- Byte strings and the little-endian words that the wire format is made of: the standard library's
-- `to_le_bytes` and `from_le_bytes`. A byte string is a list of numbers.
pub mod Words
use Prim.Native.Char.{code}
use Prim.Native.String.{String}
use rzgate.Prelude.{ℕ, ◌+◌, ◌*◌, ◌/◌, ◌%◌, ◌^◌, ◌<◌, List, [], ◌∷◌, ◌++◌, All}

abbrev pub Bytes : Type 0
Bytes = List ℕ

abbrev pub IsByte : ℕ → Type 0
IsByte b = b < 256

abbrev pub IsU16 : ℕ → Type 0
IsU16 n = n < 65536

abbrev pub IsU32 : ℕ → Type 0
IsU32 n = n < 4294967296

abbrev pub AllBytes : Bytes → Type 0
AllBytes = All IsByte

-- The bytes of an ASCII literal.
abbrev pub codes : String → Bytes
codes String.[] = []
codes (String.◌∷◌ c s) = code c ∷ codes s

abbrev pub u16_le : ℕ → Bytes
u16_le n = n % 256 ∷ n / 256 % 256 ∷ []

abbrev pub u32_le : ℕ → Bytes
u32_le n = n % 256 ∷ n / 256 % 256 ∷ n / 65536 % 256 ∷ n / 16777216 % 256 ∷ []

abbrev pub u64_le : ℕ → Bytes
u64_le n = u32_le n ++ u32_le (n / 4294967296)

abbrev pub from_u16_le : ℕ → ℕ → ℕ
from_u16_le a b = a + 256 * b

abbrev pub from_u32_le : ℕ → ℕ → ℕ → ℕ → ℕ
from_u32_le a b c d = a + 256 * b + 65536 * c + 16777216 * d
