-- ===== src/Helper/PropertyId.antt =====
-- src/helper.rs: property ids, as text and written into JSON.
pub mod Agree
use Prim.Native.Nat.{bit_and}
use rzgate.Prelude.{
  ℕ, zero, suc, ◌+◌, ◌/◌, Bool, ◌||◌, [], ◌∷◌, ◌++◌, length, take, drop, replicate, get_elem?, ltb,
  leb, ◌==◌, if◌then◌else◌, Option, none, some,
}
use rzgate.Bytes.{Bytes, codes}
use rzgate.Utf8.{from_utf8_lossy}

-- `for &b in .. { if b == 0 { break; } .. }`
unfoldable pub until_nul : Bytes → Bytes
until_nul [] = []
until_nul (b ∷ bs) = if b == 0 then [] else b ∷ until_nul bs

-- `matches!(version, 1 | 2 | 3 | 4 | 5 | 7)` for the high nibble of byte 6.
unfoldable pub has_uuid_version : ℕ → Bool
has_uuid_version b =
    let version = bit_and b 0xF0 / 16 in
    version == 1 || version == 2 || version == 3 || version == 4 || version == 5 || version == 7

-- `let mut uuid_bytes = [0u8; 16]; uuid_bytes[..copy_len].copy_from_slice(&data[..copy_len]);`
unfoldable pub uuid_bytes : Bytes → Bytes
uuid_bytes bytes = take 16 (bytes ++ replicate 16 0)

-- `Uuid::from_bytes(..).to_string()` is the crate's: `uuid_to_string`.
unfoldable pub bytes_to_property_id : (uuid_to_string : Bytes → Bytes) → Bytes → Bytes
bytes_to_property_id uuid_to_string (a ∷ b ∷ c ∷ d ∷ e ∷ f ∷ g ∷ rest) =
    if g == 0xF0
    then from_utf8_lossy (until_nul (a ∷ b ∷ c ∷ d ∷ e ∷ f ∷ []) ++ until_nul rest)
    else if has_uuid_version g
    then uuid_to_string (uuid_bytes (a ∷ b ∷ c ∷ d ∷ e ∷ f ∷ g ∷ rest))
    else []
bytes_to_property_id uuid_to_string _ = []

abbrev nth : Bytes → ℕ → ℕ
nth [] i = 0
nth (b ∷ bs) zero = b
nth (b ∷ bs) (suc i) = nth bs i

-- `HEX[n]`; the nibbles of a byte are below 16.
abbrev hex_digit : ℕ → ℕ
hex_digit n = nth (codes "0123456789abcdef") n

-- `hex2!(b)`
unfoldable pub hex2 : ℕ → Bytes
hex2 b = hex_digit (b / 16) ∷ hex_digit (bit_and b 0x0F) ∷ []

-- The sixteen `hex2!` calls and the four hyphens.
unfoldable pub write_uuid : Bytes → Bytes
write_uuid u =
    hex2 (nth u 0)
    ++ hex2 (nth u 1)
    ++ hex2 (nth u 2)
    ++ hex2 (nth u 3)
    ++ codes "-"
    ++ hex2 (nth u 4)
    ++ hex2 (nth u 5)
    ++ codes "-"
    ++ hex2 (nth u 6)
    ++ hex2 (nth u 7)
    ++ codes "-"
    ++ hex2 (nth u 8)
    ++ hex2 (nth u 9)
    ++ codes "-"
    ++ hex2 (nth u 10)
    ++ hex2 (nth u 11)
    ++ hex2 (nth u 12)
    ++ hex2 (nth u 13)
    ++ hex2 (nth u 14)
    ++ hex2 (nth u 15)

-- The buffer after the call; the call never fails.
unfoldable pub write_quoted_property_id : Bytes → Bytes → Bytes
write_quoted_property_id json (a ∷ b ∷ c ∷ d ∷ e ∷ f ∷ g ∷ rest) =
    if g == 0xF0
    then json
      ++ (b'"' ∷ until_nul (a ∷ b ∷ c ∷ d ∷ e ∷ f ∷ [])
          ++ ((if leb 1 (length rest) then until_nul rest else []) ++ (b'"' ∷ [])))
    else if has_uuid_version g
    then json ++ (b'"' ∷ write_uuid (uuid_bytes (a ∷ b ∷ c ∷ d ∷ e ∷ f ∷ g ∷ rest)) ++ (b'"' ∷ []))
    else json ++ (b'"' ∷ b'"' ∷ [])
write_quoted_property_id json _ = json ++ (b'"' ∷ b'"' ∷ [])
