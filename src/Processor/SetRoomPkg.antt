-- ===== src/Processor/SetRoomPkg.antt =====
-- src/processor/set_room_pkg.rs: SETROOMPKG.
use rzgate.Prelude.{ℕ, [], ◌∷◌, ◌^◌, ◌%◌, List, true, Option, none, some, ltb, if◌then◌else◌}
use rzgate.Bytes.{Bytes, codes, u32_le}
use rzgate.RzError.{Result, ok, ◌>>=◌}
use rzgate.Metrics.{Metrics}
use rzgate.Http.{Response}
use rzgate.Protocol.Response.{decode_simple_response}
use rzgate.Processor.Json.{Json, text, number, texts}
use rzgate.Processor.SetProp.{join}
use rzgate.Processor.Request.{begin, add_field, add_optional, finish, non_empty}
use rzgate.Processor.Perform.{Backend, perform}
pub mod Format

-- `if v > 255 { None } else { Some(v as u8) }`; the field's data is the one byte.
unfoldable pub availability_of : Option ℕ → Option Bytes
availability_of none = none
availability_of (some v) = if ltb 255 v then none else some (v ∷ [])

-- `v as u32`, which drops the higher bits; the field's data are its four bytes.
unfoldable pub final_price_of : Option ℕ → Option Bytes
final_price_of none = none
final_price_of (some v) = some (u32_le (v % 2 ^ 32))

-- `if features.is_empty() { None } else { Some(features.join(",")) }`
unfoldable pub rate_feature_of : Option (List Bytes) → Option Bytes
rate_feature_of none = none
rate_feature_of (some []) = none
rate_feature_of (some (s ∷ ss)) = some (join (s ∷ ss))

module _ (json : Json) where
  open json use {Value}

  unfoldable pub build_set_room_pkg : Value → Result Bytes
  build_set_room_pkg payload = do
    property_id ← non_empty (text json payload (codes "property_id")) (codes "property_id")
    room_type ← non_empty (text json payload (codes "room_type")) (codes "room_type")
    date ← non_empty (text json payload (codes "date")) (codes "date")
    let b1 = add_field (begin (codes "SETROOMPKG")) 0x01 0x01 property_id
    let b2 = add_field b1 0x02 0x01 room_type
    let b3 = add_field b2 0x03 0x01 date
    let b4 =
        add_optional b3 0x04 0x02 (availability_of (number json payload (codes "availability")))
    let b5 = add_optional b4 0x05 0x03 (final_price_of (number json payload (codes "final_price")))
    let b6 =
        add_optional b5 0x06 0x01 (rate_feature_of (texts json payload (codes "rate_features")))
    ok (finish (codes "SETROOMPKG") b6)

  unfoldable pub process_set_room_pkg :
      Backend → Bytes → Value → Metrics → Option (Response × Metrics)
  unfolding perform
  process_set_room_pkg handler seg payload metrics =
      perform handler seg true (build_set_room_pkg payload) decode_simple_response metrics
