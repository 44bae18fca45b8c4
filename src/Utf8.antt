-- ===== src/Utf8.antt =====
-- The standard library's `str::from_utf8` and `String::from_utf8_lossy` on a byte string. A text is
-- its UTF-8 bytes.
pub mod Laws
use rzgate.Prelude.{
  ℕ, zero, suc, ◌-◌, Bool, true, false, ◌&&◌, ◌||◌, Option, none, some, [], ◌∷◌, ◌++◌, ltb, leb,
  ◌==◌, if◌then◌else◌,
}
use rzgate.Bytes.{Bytes}

-- The byte that follows, as the decoder reads it: 0 past the end.
abbrev peek : Bytes → ℕ
peek [] = 0
peek (b ∷ _) = b

abbrev after_first : Bytes → Bytes
after_first [] = []
after_first (_ ∷ bs) = bs

abbrev between : ℕ → ℕ → ℕ → Bool
between lo hi b = leb lo b && leb b hi

abbrev continues : ℕ → Bool
continues = between 0x80 0xBF

-- Whether a second byte may follow the first byte of a sequence of three or four bytes.
second_of_three : ℕ → ℕ → Bool
second_of_three a b =
    if a == 0xE0
    then between 0xA0 0xBF b
    else if a == 0xED
    then between 0x80 0x9F b
    else continues b

second_of_four : ℕ → ℕ → Bool
second_of_four a b =
    if a == 0xF0
    then between 0x90 0xBF b
    else if a == 0xF4
    then between 0x80 0x8F b
    else continues b

-- The first sequence of `a ∷ rest`: whether it is one character, and how many bytes of `rest`
-- belong to it. An ill-formed sequence is cut where the first offending byte stands.
pub sequence : ℕ → Bytes → Bool × ℕ
unfolding second_of_three second_of_four
sequence a rest =
    let b = peek rest in
    let c = peek (after_first rest) in
    let d = peek (after_first (after_first rest)) in
    if ltb a 0x80
    then (true, 0)
    else if between 0xC2 0xDF a
    then (if continues b then (true, 1) else (false, 0))
    else if between 0xE0 0xEF a
    then (if second_of_three a b
        then (if continues c then (true, 2) else (false, 1))
        else (false, 0))
    else if between 0xF0 0xF4 a
    then (if second_of_four a b
        then (if continues c then (if continues d then (true, 3) else (false, 2)) else (false, 1))
        else (false, 0))
    else (false, 0)

-- `n` bytes at the front belong to a sequence that has been judged.
pub valid_from : ℕ → Bytes → Bool
valid_from n [] = true
valid_from (suc n) (b ∷ bs) = valid_from n bs
valid_from zero (b ∷ bs) = (sequence b bs).0 && valid_from (sequence b bs).1 bs

unfoldable pub is_utf8 : Bytes → Bool
unfolding valid_from sequence
is_utf8 = valid_from 0

unfoldable pub from_utf8 : Bytes → Option Bytes
unfolding is_utf8
from_utf8 bytes = if is_utf8 bytes then some bytes else none

-- Each ill-formed sequence becomes U+FFFD.
pub lossy_from : Bool → ℕ → Bytes → Bytes
lossy_from keep n [] = []
lossy_from true (suc n) (b ∷ bs) = b ∷ lossy_from true n bs
lossy_from false (suc n) (b ∷ bs) = lossy_from false n bs
lossy_from _ zero (b ∷ bs) =
    let rest = lossy_from (sequence b bs).0 (sequence b bs).1 bs in
    if (sequence b bs).0 then b ∷ rest else 0xEF ∷ 0xBF ∷ 0xBD ∷ rest

unfoldable pub from_utf8_lossy : Bytes → Bytes
unfolding lossy_from sequence
from_utf8_lossy = lossy_from true 0
