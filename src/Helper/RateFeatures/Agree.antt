-- ===== src/Helper/RateFeatures/Agree.antt =====
-- The writer of the feature array agrees with the function that lists the names.
use native.Mathlib.Nat.{pow-suc, pow-le-pow_right}
use rzgate.Prelude.{
  ℕ, zero, suc, ◌+◌, ◌*◌, ◌%◌, ◌^◌, ◌≤◌, ◌<◌, ◌≡◌, refl, sym, ap, ◌∙◌, Bool, true, false, none,
  some, List, [], ◌∷◌, ◌++◌, take, append_assoc, append-nil, arith, if◌then◌else◌, Bool-cases, inl,
  inr,
}
use rzgate.Bytes.{Bytes, codes}
use rzgate.Render.{quoted, comma_separated, quoted_list}
use rzgate.RzError.{ok}
use rzgate.Bitmask.{Cell, get_rate_features}
use rzgate.Helper.RateFeatures.{
  has_bit, collect, bitmask_to_rate_feature_strings, write_features, write_rate_features_array,
}

ok-injective {ℓ} : {A : Type ℓ} {a b : A} → ok a ≡ ok b → a ≡ b
ok-injective e = cc

-- What is still to be written of the names, behind others or at the front.
abbrev continued : Bool → List Bytes → Bytes
continued false names = quoted_list names
continued true [] = []
continued true (n ∷ ns) = b',' ∷ quoted_list (n ∷ ns)

quoted-continued :
    (n : Bytes) (ns : List Bytes) → quoted n ++ continued true ns ≡ quoted_list (n ∷ ns)
unfolding comma_separated
quoted-continued n [] = append-nil (quoted n)
quoted-continued n (m ∷ ns) = refl

-- One more name behind `json`, with the comma that it needs.
with_name :
    (json n : Bytes) (ns : List Bytes) (wrote : Bool)
    → (if wrote then json ++ (b',' ∷ []) else json) ++ quoted n ++ continued true ns
      ≡ json ++ continued wrote (n ∷ ns)
with_name json n ns false =
    append_assoc json (quoted n) (continued true ns) ∙ ap (◌++◌ json) (quoted-continued n ns)
with_name json n ns true =
    append_assoc (json ++ (b',' ∷ [])) (quoted n) (continued true ns)
    ∙ ap (◌++◌ (json ++ (b',' ∷ []))) (quoted-continued n ns)
    ∙ append_assoc json (b',' ∷ []) (quoted_list (n ∷ ns))

-- The mask of the next bit does not overflow.
next_bit : (i : ℕ) → i < 24 → 2 ^ i * 2 % 4294967296 ≡ 2 ^ suc i
next_bit i h =
    omega
      (arith, pow-suc 2 i, pow-le-pow_right {n = 2} (omega arith) {i = i} {j = 24} (omega arith))

module _ (json f : Bytes) (mask i : ℕ) (wrote : Bool) (fs : List Bytes) (h : i < 24) where
  write_set :
      has_bit mask i ≡ true
      → write_features json mask (2 ^ i) wrote (f ∷ fs)
        ≡ write_features
            ((if wrote then json ++ (b',' ∷ []) else json) ++ quoted f)
            mask
            (2 ^ suc i)
            true
            fs
  unfolding write_features
  write_set set = rw (write_features, set, next_bit i h)

  write_clear :
      has_bit mask i ≡ false
      → write_features json mask (2 ^ i) wrote (f ∷ fs)
        ≡ write_features json mask (2 ^ suc i) wrote fs
  unfolding write_features
  write_clear clear = rw (write_features, clear, next_bit i h)

write_features-collect :
    (mask i rounds : ℕ) (wrote : Bool) (json : Bytes) (features : List Bytes)
    → i + rounds ≤ 24
    → write_features json mask (2 ^ i) wrote (take rounds features)
      ≡ json ++ continued wrote (collect mask i rounds features)
unfolding write_features collect
write_features-collect mask i zero false json features h =
    unfold comma_separated in sym (append-nil json)
write_features-collect mask i zero true json features h = sym (append-nil json)
write_features-collect mask i (suc rounds) false json [] h =
    unfold comma_separated in sym (append-nil json)
write_features-collect mask i (suc rounds) true json [] h = sym (append-nil json)
write_features-collect mask i (suc rounds) wrote json (f ∷ fs) h =
    elim (Bool-cases (has_bit mask i)) [
      | inl set ↦
          write_set json f mask i wrote (take rounds fs) (omega arith) set
          ∙ write_features-collect mask (suc i) rounds true _ fs (omega arith)
          ∙ rw set (with_name json f (collect mask (suc i) rounds fs) wrote)
      | inr clear ↦
          write_clear json f mask i wrote (take rounds fs) (omega arith) clear
          ∙ rw clear (write_features-collect mask (suc i) rounds wrote json fs (omega arith))
    ]

-- Where `bitmask_to_rate_feature_strings` succeeds, `write_rate_features_array` writes the names that
-- it lists, quoted and with commas between them, as the `rate_feature` array.
pub write_rate_features_array-eq :
    (cell : Cell) (json : Bytes) (mask : ℕ) (names : List Bytes)
    → bitmask_to_rate_feature_strings cell mask ≡ ok names
    → write_rate_features_array cell json mask
      ≡ json ++ codes "\"rate_feature\":[" ++ quoted_list names ++ codes "]"
unfolding bitmask_to_rate_feature_strings write_rate_features_array get_rate_features
write_rate_features_array-eq none json mask names h = cc
write_rate_features_array-eq (some features) json mask names h =
    rw
      (write_features-collect mask 0 24 false (json ++ codes "\"rate_feature\":[") features
        (omega arith))
      (ap (λ (ns : List Bytes). json ++ codes "\"rate_feature\":[" ++ quoted_list ns ++ codes "]")
        (ok-injective h))
