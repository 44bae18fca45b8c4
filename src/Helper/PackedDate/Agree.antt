-- ===== src/Helper/PackedDate/Agree.antt =====
-- The two decoders of packed dates agree, and both undo the packing.
use rzgate.Prelude.{
  ℕ, ◌+◌, ◌/◌, ◌%◌, ◌<◌, ◌≡◌, refl, ap, true, false, ◌||◌, Option, none, some, [], ◌∷◌, ◌++◌,
  append_assoc, arith, ltb, ==_refl, Bool-cases, Option-cases, ◌⊎◌, inl, inr,
}
use rzgate.Bytes.{Bytes, codes}
use rzgate.RzError.{RzError, Result, ok, err}
use rzgate.Helper.PackedDate.{
  Calendar, year_offset, month_of, day_of, write_u32_four_digits, write_u32_two_digits, u16_to_date,
  write_packed_date,
}

abbrev pub four_digits : ℕ → Bytes
four_digits y = (48 + y / 1000) ∷ (48 + y / 100 % 10) ∷ (48 + y / 10 % 10) ∷ (48 + y % 10) ∷ []

abbrev pub two_digits : ℕ → Bytes
two_digits n = (48 + n / 10) ∷ (48 + n % 10) ∷ []

-- `YYYY-MM-DD`
abbrev pub iso_date : ℕ → ℕ → ℕ → Bytes
iso_date y m d = four_digits y ++ codes "-" ++ two_digits m ++ codes "-" ++ two_digits d

-- The documented behaviour of `chrono`: a date that is made has the month and the day that it was made
-- of, prints in the ISO form (years of four digits), and no month has a number above 12 or a day above 31.
pub record IsGregorian (cal : Calendar) : Type 0 where
  pub month_made :
      (y m d : ℕ) (date : cal.Date) → cal.from_ymd_opt y m d ≡ some date → cal.month date ≡ m
  pub day_made :
      (y m d : ℕ) (date : cal.Date) → cal.from_ymd_opt y m d ≡ some date → cal.day date ≡ d
  pub format_made :
      (y m d : ℕ) (date : cal.Date)
      → cal.from_ymd_opt y m d ≡ some date
      → y < 10000
      → cal.format date ≡ iso_date y m d
  pub month_range : (y m d : ℕ) → 12 < m → cal.from_ymd_opt y m d ≡ none
  pub day_range : (y m d : ℕ) → 31 < d → cal.from_ymd_opt y m d ≡ none

write_u32_four_digits_lem :
    (buf : Bytes) (y : ℕ) → y < 10000 → write_u32_four_digits buf y ≡ buf ++ four_digits y
unfolding write_u32_four_digits
write_u32_four_digits_lem buf y h = ap (◌++◌ buf) (ground arith)

write_u32_two_digits_lem :
    (buf : Bytes) (n : ℕ) → n < 100 → write_u32_two_digits buf n ≡ buf ++ two_digits n
unfolding write_u32_two_digits
write_u32_two_digits_lem buf n h = elim (Bool-cases (ltb n 10)) [
  | inl small ↦ rw small (ap (◌++◌ buf) (ground arith))
  | inr large ↦ rw large (ap (◌++◌ buf) (ground arith))
]

write_iso :
    (json : Bytes) (y m d : ℕ)
    → y < 10000
    → m < 100
    → d < 100
    → write_u32_two_digits
        (write_u32_two_digits (write_u32_four_digits json y ++ (b'-' ∷ [])) m ++ (b'-' ∷ []))
        d
      ≡ json ++ iso_date y m d
write_iso json y m d hy hm hd =
    rw
      (
        write_u32_two_digits_lem _ d hd,
        write_u32_two_digits_lem _ m hm,
        write_u32_four_digits_lem json y hy,
      )
      (simp append_assoc)

-- How the writer's answer relates to the other function's.
abbrev pub Agrees : Bytes → Result Bytes → Result Bytes → Type 0
Agrees json (ok text) r = r ≡ ok (json ++ text)
Agrees json (err _) r = (e : RzError) × (r ≡ err e)

some_range : (m d : ℕ) → (ltb 12 m || ltb 31 d) ≡ true → (12 < m) ⊎ (31 < d)
some_range m d h = ground arith

module _ (cal : Calendar) (gregorian : IsGregorian cal) (year : ℕ) (four : year + 7 < 10000) where
  open gregorian use {month_made, day_made, format_made, month_range, day_range}

  -- The three numbers of a packed date.
  abbrev made : ℕ → Option cal.Date
  made packed = cal.from_ymd_opt (year + year_offset packed) (month_of packed) (day_of packed)

  out_of_range :
      (packed : ℕ)
      → (ltb 12 (month_of packed) || ltb 31 (day_of packed)) ≡ true
      → made packed ≡ none
  out_of_range packed h = elim (some_range (month_of packed) (day_of packed) h) [
    | inl m ↦ month_range _ _ _ m
    | inr d ↦ day_range _ _ _ d
  ]

  u16_to_date-made :
      (packed : ℕ) (date : cal.Date)
      → made packed ≡ some date
      → u16_to_date cal year packed
        ≡ ok (iso_date (year + year_offset packed) (month_of packed) (day_of packed))
  unfolding u16_to_date
  u16_to_date-made packed date e = rw (
    e,
    month_made _ _ _ date e,
    day_made _ _ _ date e,
    ==_refl (month_of packed),
    ==_refl (day_of packed),
    format_made _ _ _ date e (omega arith),
  )

  write_packed_date-made :
      (json : Bytes) (packed : ℕ) (date : cal.Date)
      → made packed ≡ some date
      → (ltb 12 (month_of packed) || ltb 31 (day_of packed)) ≡ false
      → write_packed_date cal year json packed
        ≡ ok (json ++ iso_date (year + year_offset packed) (month_of packed) (day_of packed))
  unfolding write_packed_date
  write_packed_date-made json packed date e inside =
      rw
        (
          inside,
          e,
          month_made _ _ _ date e,
          day_made _ _ _ date e,
          ==_refl (month_of packed),
          ==_refl (day_of packed),
        )
        (ap ok (write_iso json _ _ _ (omega arith) (omega arith) (omega arith)))

  -- With the documented calendar, and in years of four digits, `write_packed_date` succeeds exactly
  -- where `u16_to_date` does, and appends the same text.
  pub write_packed_date-Agrees :
      (json : Bytes) (packed : ℕ)
      → Agrees json (u16_to_date cal year packed) (write_packed_date cal year json packed)
  unfolding u16_to_date write_packed_date
  write_packed_date-Agrees json packed =
      elim (Bool-cases (ltb 12 (month_of packed) || ltb 31 (day_of packed))) [
        | inl outside ↦ rw (out_of_range packed outside, outside) (_, refl)
        | inr inside ↦ elim (Option-cases (made packed)) [
          | inl e ↦ rw (inside, e) (_, refl)
          | inr (date, e) ↦
              rw (u16_to_date-made packed date e) (write_packed_date-made json packed date e inside)
        ]
      ]
