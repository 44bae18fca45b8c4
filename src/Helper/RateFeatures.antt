-- ===== src/Helper/RateFeatures.antt =====
-- src/helper.rs: the names of the rate features that are set in a 24-bit mask. `cell` is the cell of
-- src/bitmask.rs.
pub mod Agree
use rzgate.Prelude.{
  ℕ, zero, suc, ◌+◌, ◌/◌, ◌%◌, ◌*◌, ◌^◌, Bool, true, false, not, Option, none, some, List, [], ◌∷◌,
  ◌++◌, take, ◌==◌, if◌then◌else◌,
}
use rzgate.Bytes.{Bytes, codes}
use rzgate.RzError.{Result, ok, err, ◌>>=◌}
use rzgate.Bitmask.{Cell, get_rate_features}

-- `(mask & (1 << i)) != 0`
abbrev pub has_bit : ℕ → ℕ → Bool
has_bit mask i = not (mask / 2 ^ i % 2 == 0)

-- `for i in 0..24 { if i >= rate_features.len() { break; } .. }`: `rounds` are left, and the list
-- holds the features from `i` on.
unfoldable pub collect : ℕ → ℕ → ℕ → List Bytes → List Bytes
collect mask i zero features = []
collect mask i (suc rounds) [] = []
collect mask i (suc rounds) (f ∷ fs) =
    let rest = collect mask (suc i) rounds fs in if has_bit mask i then f ∷ rest else rest

unfoldable pub bitmask_to_rate_feature_strings : Cell → ℕ → Result (List Bytes)
unfolding collect
bitmask_to_rate_feature_strings cell mask = do
  rate_features ← get_rate_features cell
  ok (collect mask 0 24 rate_features)

-- The loop over `features.iter().take(24)`, with the mask of the current bit; `mask & bit != 0`.
unfoldable pub write_features : Bytes → ℕ → ℕ → Bool → List Bytes → Bytes
write_features json mask bit wrote_any [] = json
write_features json mask bit wrote_any (f ∷ fs) =
    let set = not (mask / bit % 2 == 0) in
    let comma = if wrote_any then json ++ (b',' ∷ []) else json in
    write_features (if set then comma ++ (b'"' ∷ f ++ (b'"' ∷ [])) else json) mask
      (bit * 2 % 2 ^ 32) (if set then true else wrote_any) fs

unfoldable pub write_rate_features_array : Cell → Bytes → ℕ → Bytes
unfolding write_features
write_rate_features_array none json mask = json ++ codes "\"rate_feature\":[" ++ codes "]"
write_rate_features_array (some features) json mask =
    write_features (json ++ codes "\"rate_feature\":[") mask 1 false (take 24 features) ++ codes "]"
