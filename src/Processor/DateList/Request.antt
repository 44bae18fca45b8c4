-- ===== src/Processor/DateList/Request.antt =====
-- The request of PROPROOMDATELIST.
use rzgate.Prelude.{◌++◌, ◌∷◌, [], ◌≡◌, arith}
use rzgate.Bytes.{Bytes, codes}
use rzgate.RzError.{Result, ok, ◌>>=◌}
use rzgate.Processor.Json.{Json, text}
use rzgate.Processor.Request.{counted, field, non_empty}
use rzgate.Processor.Request.Required.{IsShort}
use rzgate.Processor.Request.Keyed.{request, two_keys}

unfoldable pub build_prop_room_date_list : (json : Json) → json.Value → Result Bytes
build_prop_room_date_list json payload = do
  property_id ← non_empty (text json payload (codes "property_id")) (codes "property_id")
  room_type ← non_empty (text json payload (codes "room_type")) (codes "room_type")
  ok (
      counted (codes "PROPROOMDATELIST") 2
      ++ (field 0x01 0x01 property_id ++ field 0x02 0x01 room_type))

-- On texts of 32-bit lengths, PROPROOMDATELIST makes the request of the wire format whose fields are
-- the required texts in the order of their keys, or refuses the payload with the name of the
-- first key that holds no non-empty text.
pub build_prop_room_date_list-request :
    (json : Json) (payload : json.Value)
    → IsShort json payload
    → build_prop_room_date_list json payload
      ≡ request json
          (codes "PROPROOMDATELIST")
          (codes "property_id" ∷ codes "room_type" ∷ [])
          payload
unfolding build_prop_room_date_list
build_prop_room_date_list-request json payload short =
    two_keys json payload short (codes "PROPROOMDATELIST") (omega arith) (codes "property_id")
      (codes "room_type")
