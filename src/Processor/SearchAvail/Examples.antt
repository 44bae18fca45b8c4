-- ===== src/Processor/SearchAvail/Examples.antt =====
-- The theorems on SEARCHAVAIL, applied to a concrete payload and to concrete responses.
use rzgate.Prelude.{◌≡◌, [], ◌∷◌, arith}
use rzgate.Bytes.{codes}
use rzgate.Helper.Samples.{
  hyphenated, hyphenated-IsHyphenated, short_id, short_months, short_months-IsGregorian,
}
use rzgate.Processor.Samples.{object, json, table-IsShort, table-IsShortWords}
use rzgate.Processor.SearchAvail.Request.{build_search_avail}
use rzgate.Processor.SearchAvail.Request.Format.{search_avail_request, build_search_avail-request}
use rzgate.Processor.SearchAvail.Days.{World}
use rzgate.Processor.SearchAvail.Properties.{Property}

build_search_avail_example : build_search_avail json object ≡ search_avail_request json object
build_search_avail_example = build_search_avail-request json object table-IsShort table-IsShortWords

abbrev world : World
world = record {
  cal = short_months;
  gregorian = short_months-IsGregorian;
  year = 2026;
  four = omega arith;
  uuid_to_string = hyphenated;
  documented = hyphenated-IsHyphenated;
  features = codes "breakfast" ∷ codes "refundable" ∷ codes "wifi" ∷ [];
}

-- 35 is the fourth of February of the current year.
abbrev hotel : Property
hotel = record {
  property_id = short_id;
  days =
      record {
        packed = 35;
        date = codes "2026-02-04";
        availability = 3;
        final_price = 129;
        rate_mask = 5;
      }
      ∷ record {
        packed = 36;
        date = codes "2026-02-05";
        availability = 0;
        final_price = 99;
        rate_mask = 0;
      }
      ∷ [];
}

abbrev empty_hotel : Property
empty_hotel = record { property_id = []; days = [] }
