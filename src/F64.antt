-- ===== src/F64.antt =====
-- The language's f64, as its IEEE 754 bit pattern: the order that the range checks use.
use rzgate.Prelude.{ℕ, ◌+◌, ◌-◌, ◌%◌, Bool, not, ◌&&◌, ltb, leb, if◌then◌else◌}

-- The exponent is all ones and the fraction is not zero.
abbrev pub is_nan : ℕ → Bool
is_nan x = ltb 0x7FF0_0000_0000_0000 (x % 0x8000_0000_0000_0000)

-- The patterns of numbers in their order: the negative ones fall as their pattern grows. Both zeros
-- have one place.
abbrev pub rank : ℕ → ℕ
rank x =
    if ltb x 0x8000_0000_0000_0000 then 0x8000_0000_0000_0000 + x else 0x1_0000_0000_0000_0000 - x

-- `a <= b`
unfoldable pub f64_le : ℕ → ℕ → Bool
f64_le a b = not (is_nan a) && not (is_nan b) && leb (rank a) (rank b)

-- `x >= lo && x <= hi`
abbrev pub in_range : ℕ → ℕ → ℕ → Bool
in_range lo hi x = f64_le lo x && f64_le x hi

abbrev pub minus_90 : ℕ
minus_90 = 0xC056_8000_0000_0000

abbrev pub plus_90 : ℕ
plus_90 = 0x4056_8000_0000_0000

abbrev pub minus_180 : ℕ
minus_180 = 0xC066_8000_0000_0000

abbrev pub plus_180 : ℕ
plus_180 = 0x4066_8000_0000_0000
