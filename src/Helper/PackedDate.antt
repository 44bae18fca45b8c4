-- ===== src/Helper/PackedDate.antt =====
-- src/helper.rs: the 16-bit packed dates. The `chrono` crate is a parameter, and so is the current
-- year, which the code reads from the clock.
pub mod Agree
use rzgate.Prelude.{
  ℕ, zero, suc, ◌+◌, ◌/◌, ◌%◌, ◌≤◌, ◌≡◌, Bool, ◌||◌, not, Option, none, some, [], ◌∷◌, ◌++◌, ltb,
  ◌==◌, if◌then◌else◌,
}
use rzgate.Bytes.{Bytes, codes}
use rzgate.RzError.{Result, ok, err, validation, ◌>>=◌}

-- What the code uses of `chrono::NaiveDate`.
pub record Calendar : Type 1 where
  pub Date : Type 0
  pub from_ymd_opt : ℕ → ℕ → ℕ → Option Date
  pub month : Date → ℕ
  pub day : Date → ℕ
  pub format : Date → Bytes

-- `.ok_or_else(..)`
abbrev or_fail {ℓ} : {A : Type ℓ} → Option A → Bytes → Result A
or_fail none msg = err (validation msg)
or_fail (some a) msg = ok a

abbrev pub year_offset : ℕ → ℕ
year_offset packed = packed / 512 % 8

abbrev pub month_of : ℕ → ℕ
month_of packed = packed / 32 % 16 + 1

abbrev pub day_of : ℕ → ℕ
day_of packed = packed % 32 + 1

-- Each byte is `b'0' + (n / 1000) as u8` and so on; the u8 sum wraps.
unfoldable pub write_u32_four_digits : Bytes → ℕ → Bytes
write_u32_four_digits buf n =
    buf
    ++ (((48 + n / 1000 % 256) % 256)
        ∷ ((48 + n % 1000 / 100 % 256) % 256)
        ∷ ((48 + n % 1000 % 100 / 10 % 256) % 256)
        ∷ ((48 + n % 1000 % 100 % 10 % 256) % 256)
        ∷ [])

unfoldable pub write_u32_two_digits : Bytes → ℕ → Bytes
write_u32_two_digits buf n =
    if ltb n 10
    then buf ++ (48 ∷ ((48 + n % 256) % 256) ∷ [])
    else buf ++ (((48 + n / 10 % 256) % 256) ∷ ((48 + n % 10 % 256) % 256) ∷ [])

module _ (cal : Calendar) (current_year : ℕ) where
  open cal use {Date, from_ymd_opt, month, day, format}

  unfoldable pub u16_to_date : ℕ → Result Bytes
  u16_to_date packed = do
    date ←
        or_fail (from_ymd_opt (current_year + year_offset packed) (month_of packed) (day_of packed))
          (codes "invalid packed date")
    if not (month date == month_of packed) || not (day date == day_of packed)
        then err (validation (codes "invalid packed date"))
        else ok (format date)

  -- The buffer after the call, or the error; on an error nothing is written.
  unfoldable pub write_packed_date : Bytes → ℕ → Result Bytes
  write_packed_date json packed =
      if ltb 12 (month_of packed) || ltb 31 (day_of packed)
      then err (validation (codes "invalid packed date: month/day out of range"))
      else do
        date ←
            or_fail
              (from_ymd_opt (current_year + year_offset packed) (month_of packed) (day_of packed))
              (codes "invalid packed date")
        if not (month date == month_of packed) || not (day date == day_of packed)
            then err (validation (codes "invalid packed date: overflow"))
            else ok (
                write_u32_two_digits
                  (write_u32_two_digits
                      (write_u32_four_digits json (current_year + year_offset packed)
                        ++ (b'-' ∷ []))
                      (month_of packed)
                    ++ (b'-' ∷ []))
                  (day_of packed))
