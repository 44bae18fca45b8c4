-- ===== src/Bytes/Words.antt =====
-- Reading back a word that was written in little-endian order.
use rzgate.Prelude.{ℕ, ◌/◌, ◌%◌, ◌≡◌, arith}
use rzgate.Bytes.{IsByte, IsU16, IsU32, AllBytes, u16_le, u32_le, from_u16_le, from_u32_le}

pub from_u16_le-u16_le : (n : ℕ) → IsU16 n → from_u16_le (n % 256) (n / 256 % 256) ≡ n
from_u16_le-u16_le n h = omega arith

pub from_u32_le-u32_le :
    (n : ℕ)
    → IsU32 n
    → from_u32_le (n % 256) (n / 256 % 256) (n / 65536 % 256) (n / 16777216 % 256) ≡ n
from_u32_le-u32_le n h = omega arith

pub from_u16_le-IsU16 : (a b : ℕ) → IsByte a → IsByte b → IsU16 (from_u16_le a b)
from_u16_le-IsU16 a b ha hb = omega arith

pub u16_le-AllBytes : (n : ℕ) → AllBytes (u16_le n)
u16_le-AllBytes n = omega arith

pub u32_le-AllBytes : (n : ℕ) → AllBytes (u32_le n)
u32_le-AllBytes n = omega arith
