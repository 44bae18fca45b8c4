-- ===== src/Decimal.antt =====
-- The standard library's decimal printing of unsigned integers (`to_string`, `itoa`).
pub mod Laws
use rzgate.Prelude.{ℕ, zero, suc, ◌+◌, ◌/◌, ◌%◌, [], ◌∷◌, ◌++◌, ltb, if◌then◌else◌}
use rzgate.Bytes.{Bytes}

-- At most `suc fuel` digits. Twenty digits hold every u64.
pub digits : ℕ → ℕ → Bytes
digits zero n = (48 + n % 10) ∷ []
digits (suc fuel) n =
    let more = digits fuel (n / 10) ++ ((48 + n % 10) ∷ []) in
    if ltb n 10 then (48 + n) ∷ [] else more

unfoldable pub decimal : ℕ → Bytes
unfolding digits
decimal n = digits 19 n
