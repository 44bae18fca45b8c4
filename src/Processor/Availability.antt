-- ===== src/Processor/Availability.antt =====
-- src/processor/set_room_avl.rs, inc_room_avl.rs and dec_room_avl.rs: the commands that set, raise
-- and lower a room's availability. They differ in the command's name alone.
pub mod Format
use rzgate.Prelude.{ℕ, [], ◌∷◌, true, Option, none, some, leb, if◌then◌else◌}
use rzgate.Bytes.{Bytes, codes}
use rzgate.RzError.{Result, ok, err, validation, ◌>>=◌}
use rzgate.Metrics.{Metrics}
use rzgate.Http.{Response}
use rzgate.Protocol.Response.{decode_scalar_u8_response}
use rzgate.Processor.Json.{Json, text, number}
use rzgate.Processor.Request.{begin, add_field, patch, non_empty}
use rzgate.Processor.Perform.{Backend, Decoder, perform}

-- `Some(a) if a <= 255 => a as u8`
unfoldable pub amount_of : Option ℕ → Result ℕ
amount_of none = err (validation (codes "amount is required and must be 0-255"))
amount_of (some a) =
    if leb a 255 then ok a else err (validation (codes "amount is required and must be 0-255"))

abbrev pub decode_availability : Decoder
decode_availability metrics payload =
    decode_scalar_u8_response metrics payload (codes "availability")

module _ (json : Json) where
  open json use {Value}

  unfoldable pub build_room_avl : Bytes → Value → Result Bytes
  build_room_avl cmd_name payload = do
    property_id ← non_empty (text json payload (codes "property_id")) (codes "property_id")
    room_type ← non_empty (text json payload (codes "room_type")) (codes "room_type")
    date ← non_empty (text json payload (codes "date")) (codes "date")
    amount ← amount_of (number json payload (codes "amount"))
    let b1 = add_field (begin cmd_name) 0x01 0x01 property_id
    let b2 = add_field b1 0x02 0x01 room_type
    let b3 = add_field b2 0x03 0x01 date
    let b4 = add_field b3 0x04 0x02 (amount ∷ [])
    ok (patch cmd_name 4 b4)

  module _ (handler : Backend) (seg : Bytes) (payload : Value) (metrics : Metrics) where
    unfoldable pub process_set_room_avl : Option (Response × Metrics)
    unfolding perform
    process_set_room_avl =
        perform handler seg true (build_room_avl (codes "SETROOMAVL") payload) decode_availability
          metrics

    unfoldable pub process_inc_room_avl : Option (Response × Metrics)
    unfolding perform
    process_inc_room_avl =
        perform handler seg true (build_room_avl (codes "INCROOMAVL") payload) decode_availability
          metrics

    unfoldable pub process_dec_room_avl : Option (Response × Metrics)
    unfolding perform
    process_dec_room_avl =
        perform handler seg true (build_room_avl (codes "DECROOMAVL") payload) decode_availability
          metrics
