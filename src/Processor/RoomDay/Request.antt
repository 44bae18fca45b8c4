-- ===== src/Processor/RoomDay/Request.antt =====
-- The request of GETPROPROOMDAY.
use rzgate.Prelude.{◌++◌}
use rzgate.Bytes.{Bytes, codes}
use rzgate.RzError.{Result, ok, ◌>>=◌}
use rzgate.Processor.Json.{Json, text}
use rzgate.Processor.Request.{counted, field, non_empty}

unfoldable pub build_get_prop_room_day : (json : Json) → json.Value → Result Bytes
build_get_prop_room_day json payload = do
  property_id ← non_empty (text json payload (codes "property_id")) (codes "property_id")
  room_type ← non_empty (text json payload (codes "room_type")) (codes "room_type")
  date ← non_empty (text json payload (codes "date")) (codes "date")
  ok (
      counted (codes "GETPROPROOMDAY") 3
      ++ (field 0x01 0x01 property_id ++ (field 0x02 0x01 room_type ++ field 0x03 0x01 date)))
