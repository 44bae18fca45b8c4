-- ===== src/Processor/SearchAvail/Request.antt =====
-- src/processor/search_avail.rs: the request of SEARCHAVAIL. A field is added for each filter that the payload
-- holds; values out of range are left out without an error.
pub mod Format
use rzgate.Prelude.{ℕ, ◌%◌, ◌^◌, leb, Option, none, some, [], ◌∷◌, if◌then◌else◌}
use rzgate.Bytes.{Bytes, codes, u32_le, u64_le}
use rzgate.RzError.{Result, ok, ◌>>=◌}
use rzgate.Processor.Json.{Json, text, number, float, texts}
use rzgate.Processor.SetRoomPkg.{final_price_of, rate_feature_of}
use rzgate.Processor.SearchProp.{limit_filter}
use rzgate.Processor.Request.{Builder, begin, add_field, add_optional, finish, non_empty}

-- `.filter(|&s| s <= 255).map(|s| s as u8)`; the field's data is the one byte.
unfoldable pub byte_filter : Option ℕ → Option Bytes
byte_filter none = none
byte_filter (some n) = if leb n 255 then some (n ∷ []) else none

-- The eight bytes of an f64; its range is not checked here.
unfoldable pub degrees_bytes : Option ℕ → Option Bytes
degrees_bytes none = none
degrees_bytes (some x) = some (u64_le x)

-- The fields behind the two required ones.
unfoldable pub add_filters : (json : Json) → json.Value → Builder → Builder
add_filters json payload b2 =
    let b3 = add_optional b2 0x03 0x01 (text json payload (codes "area")) in
    let b4 = add_optional b3 0x04 0x01 (text json payload (codes "property_id")) in
    let b5 = add_optional b4 0x05 0x01 (text json payload (codes "type")) in
    let b6 = add_optional b5 0x06 0x02 (byte_filter (number json payload (codes "stars"))) in
    let b7 = add_optional b6 0x07 0x01 (text json payload (codes "category")) in
    let b8 = add_optional b7 0x08 0x01 (rate_feature_of (texts json payload (codes "amenities"))) in
    let b9 = add_optional b8 0x09 0x03 (degrees_bytes (float json payload (codes "longitude"))) in
    let b10 = add_optional b9 0x0A 0x03 (degrees_bytes (float json payload (codes "latitude"))) in
    let b11 = add_optional b10 0x0B 0x01 (rate_feature_of (texts json payload (codes "date"))) in
    let b12 =
      add_optional b11 0x0C 0x02 (byte_filter (number json payload (codes "availability"))) in
    let b13 =
      add_optional b12 0x0D 0x03 (final_price_of (number json payload (codes "final_price"))) in
    let b14 =
      add_optional b13 0x0E 0x01 (rate_feature_of (texts json payload (codes "rate_features"))) in
    add_optional b14 0x0F 0x03 (limit_filter (number json payload (codes "limit")))

unfoldable pub build_search_avail : (json : Json) → json.Value → Result Bytes
unfolding add_filters
build_search_avail json payload = do
  segment ← non_empty (text json payload (codes "segment")) (codes "segment")
  room_type ← non_empty (text json payload (codes "room_type")) (codes "room_type")
  let b1 = add_field (begin (codes "SEARCHAVAIL")) 0x01 0x01 segment
  let b2 = add_field b1 0x02 0x01 room_type
  ok (finish (codes "SEARCHAVAIL") (add_filters json payload b2))
