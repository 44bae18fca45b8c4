-- ===== src/Decimal/Laws.antt =====
-- Printed numbers are read back, and hold digits only.
use rzgate.Prelude.{
  ℕ, zero, suc, ◌+◌, ◌*◌, ◌-◌, ◌/◌, ◌%◌, ◌^◌, ◌<◌, ◌≡◌, refl, [], ◌∷◌, ◌++◌, arith, ltb, Bool-cases,
  inl, inr,
}
use rzgate.Bytes.{Bytes}
use rzgate.Decimal.{digits, decimal}

-- The number that a string of digits stands for.
unfoldable pub value : ℕ → Bytes → ℕ
value acc [] = acc
value acc (d ∷ ds) = value (acc * 10 + (d - 48)) ds

value-append : (acc d : ℕ) (ds : Bytes) → value acc (ds ++ (d ∷ [])) ≡ value acc ds * 10 + (d - 48)
unfolding value
value-append acc d [] = refl
value-append acc d (e ∷ ds) = value-append (acc * 10 + (e - 48)) d ds

value-digits : (fuel n : ℕ) → n < 10 ^ suc fuel → value 0 (digits fuel n) ≡ n
unfolding digits
value-digits zero n h = unfold value in omega arith
value-digits (suc fuel) n h = elim (Bool-cases (ltb n 10)) [
  | inl one ↦ rw one (unfold value in omega arith)
  | inr more ↦
      rw (more, value-append 0 (48 + n % 10) (digits fuel (n / 10)))
        (omega (arith, value-digits fuel (n / 10) (omega arith)))
]

pub value-decimal : (n : ℕ) → n < 10 ^ 20 → value 0 (decimal n) ≡ n
unfolding decimal
value-decimal n h = value-digits 19 n h
