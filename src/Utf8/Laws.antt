-- ===== src/Utf8/Laws.antt =====
-- Text that is valid UTF-8 is not changed by the lossy conversion, and ASCII is valid.
use rzgate.Prelude.{ℕ, zero, suc, ◌<◌, ◌≡◌, refl, ap, true, [], ◌∷◌, All, arith}
use rzgate.Bytes.{Bytes}
use rzgate.Utf8.{sequence, valid_from, is_utf8, lossy_from, from_utf8_lossy}

lossy_from_valid :
    (n : ℕ) (bytes : Bytes) → valid_from n bytes ≡ true → lossy_from true n bytes ≡ bytes
unfolding valid_from lossy_from
lossy_from_valid zero [] h = refl
lossy_from_valid (suc n) [] h = refl
lossy_from_valid (suc n) (b ∷ bs) h = ap (◌∷◌ b) (lossy_from_valid n bs h)
lossy_from_valid zero (b ∷ bs) h = ground (arith, lossy_from_valid (sequence b bs).1 bs)

pub from_utf8_lossy-is_utf8 : (bytes : Bytes) → is_utf8 bytes ≡ true → from_utf8_lossy bytes ≡ bytes
unfolding is_utf8 from_utf8_lossy
from_utf8_lossy-is_utf8 = lossy_from_valid 0

abbrev pub IsAscii : ℕ → Type 0
IsAscii b = b < 128

pub is_utf8-IsAscii : (bytes : Bytes) → All IsAscii bytes → is_utf8 bytes ≡ true
unfolding is_utf8
is_utf8-IsAscii [] h = refl
is_utf8-IsAscii (b ∷ bs) h = ground (arith, is_utf8-IsAscii bs)
