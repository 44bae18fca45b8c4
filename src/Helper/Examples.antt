-- ===== src/Helper/Examples.antt =====
-- The theorems on the helpers, applied to concrete bytes, and to a calendar of one year.
use rzgate.Prelude.{arith}
use rzgate.Bytes.{codes}
use rzgate.Helper.PackedDate.{u16_to_date, write_packed_date}
use rzgate.Helper.PackedDate.Agree.{Agrees, write_packed_date-Agrees}
use rzgate.Helper.Samples.{short_months, short_months-IsGregorian}

packed_date_example :
    Agrees
      (codes "\"")
      (u16_to_date short_months 2026 35)
      (write_packed_date short_months 2026 (codes "\"") 35)
packed_date_example =
    write_packed_date-Agrees short_months short_months-IsGregorian 2026 (omega arith) (codes "\"")
      35

-- Bits 0 and 2.
