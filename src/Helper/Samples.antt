-- ===== src/Helper/Samples.antt =====
-- A concrete `uuid` and a concrete `chrono`, for the tests.
use rzgate.Prelude.{ℕ, refl, ◌&&◌, leb, if◌then◌else◌, some, none, [], ◌∷◌, ◌++◌, arith}
use rzgate.Bytes.{Bytes, codes}
use rzgate.Bitmask.{Cell}
use rzgate.Helper.PropertyId.Agree.{hex, IsHyphenated}
use rzgate.Helper.PackedDate.{Calendar}
use rzgate.Helper.PackedDate.Agree.{IsGregorian, iso_date}

abbrev pub hyphenated : Bytes → Bytes
hyphenated (a ∷ b ∷ c ∷ d ∷ e ∷ f ∷ g ∷ h ∷ i ∷ j ∷ k ∷ l ∷ m ∷ n ∷ o ∷ p ∷ []) =
    hex (a ∷ b ∷ c ∷ d ∷ [])
    ++ codes "-"
    ++ hex (e ∷ f ∷ [])
    ++ codes "-"
    ++ hex (g ∷ h ∷ [])
    ++ codes "-"
    ++ hex (i ∷ j ∷ [])
    ++ codes "-"
    ++ hex (k ∷ l ∷ m ∷ n ∷ o ∷ p ∷ [])
hyphenated _ = []

pub hyphenated-IsHyphenated : IsHyphenated hyphenated
hyphenated-IsHyphenated a b c d e f g h i j k l m n o p = refl

-- The short id `hotel_42`, cut behind its sixth byte by the marker.
abbrev pub short_id : Bytes
short_id = codes "hotel_" ++ (0xF0 ∷ codes "42" ++ (0 ∷ 0 ∷ []))

-- A calendar with the first 28 days of each month. A date is its year, month and day.
pub record Day : Type 0 where
  pub year : ℕ
  pub month : ℕ
  pub day : ℕ

abbrev pub short_months : Calendar
short_months = record {
  Date = Day;
  from_ymd_opt = λ y m d.
      if leb 1 m && leb m 12 && leb 1 d && leb d 28
      then some (record { year = y; month = m; day = d })
      else none;
  month = λ x. x.month;
  day = λ x. x.day;
  format = λ x. iso_date x.year x.month x.day;
}

pub short_months-IsGregorian : IsGregorian short_months
short_months-IsGregorian = record {
  month_made = λ y m d date e. ground arith;
  day_made = λ y m d date e. ground arith;
  format_made = λ y m d date e h. ground arith;
  month_range = λ y m d h. ground arith;
  day_range = λ y m d h. ground arith;
}

abbrev pub cell : Cell
cell = some (codes "breakfast" ∷ codes "refundable" ∷ codes "wifi" ∷ [])
