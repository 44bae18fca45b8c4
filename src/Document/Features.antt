-- ===== src/Document/Features.antt =====
-- The rate features in a mask: the k-th name is there exactly if the k-th binary digit of the mask is one.
use native.Mathlib.Nat.{div-div-eq-div-mul}
use rzgate.Prelude.{
  ℕ, zero, suc, ◌/◌, ◌%◌, ◌^◌, ◌≡◌, refl, ap, ◌∙◌, not, List, [], ◌∷◌, take, ◌==◌, arith,
  if◌then◌else◌,
}
use rzgate.Bytes.{Bytes}
use rzgate.Helper.RateFeatures.{collect}

-- The names at the ones of a mask, the lowest digit first.
abbrev pub at_ones : ℕ → List Bytes → List Bytes
at_ones mask [] = []
at_ones mask (f ∷ fs) = let rest = at_ones (mask / 2) fs in if mask % 2 == 1 then f ∷ rest else rest

-- A mask has 24 digits.
abbrev pub named_features : ℕ → List Bytes → List Bytes
named_features mask features = at_ones mask (take 24 features)

digit : (n : ℕ) → not (n % 2 == 0) ≡ (n % 2 == 1)
digit n = ground arith

next_digit : (mask i : ℕ) → mask / 2 ^ i / 2 ≡ mask / 2 ^ suc i
next_digit mask i = div-div-eq-div-mul mask (2 ^ i) 2 ∙ ap (◌/◌ mask) (omega arith)

collect-at_ones :
    (mask i rounds : ℕ) (features : List Bytes)
    → collect mask i rounds features ≡ at_ones (mask / 2 ^ i) (take rounds features)
unfolding collect
collect-at_ones mask i zero features = refl
collect-at_ones mask i (suc rounds) [] = refl
collect-at_ones mask i (suc rounds) (f ∷ fs) =
    rw (digit (mask / 2 ^ i), collect-at_ones mask (suc i) rounds fs, next_digit mask i) refl

pub collect-named_features :
    (mask : ℕ) (features : List Bytes) → collect mask 0 24 features ≡ named_features mask features
collect-named_features mask features =
    collect-at_ones mask 0 24 features ∙ ap (λ (n : ℕ). at_ones n (take 24 features)) (omega arith)
