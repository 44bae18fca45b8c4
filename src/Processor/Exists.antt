-- ===== src/Processor/Exists.antt =====
-- src/processor/prop_exist.rs and prop_room_exist.rs: the commands that ask whether something
-- exists. They are reads, and are answered by `decode_boolean_response`.
pub mod Format
use rzgate.Prelude.{ℕ, ◌++◌, false, Option}
use rzgate.Bytes.{Bytes, codes}
use rzgate.RzError.{Result, ok, ◌>>=◌}
use rzgate.Metrics.{Metrics}
use rzgate.Http.{Response}
use rzgate.Protocol.Response.{decode_boolean_response}
use rzgate.Processor.Json.{Json, text}
use rzgate.Processor.Request.{counted, field, non_empty}
use rzgate.Processor.Perform.{Backend, Decoder, perform}

-- `decode_prop_exist_response` and `decode_prop_room_exist_response`
abbrev pub decode_exists : Decoder
decode_exists metrics payload = decode_boolean_response metrics payload (codes "exists")

module _ (json : Json) where
  open json use {Value}

  unfoldable pub build_prop_exist : Value → Result Bytes
  build_prop_exist payload = do
    property_id ← non_empty (text json payload (codes "property_id")) (codes "property_id")
    ok (counted (codes "PROPEXIST") 1 ++ field 0x01 0x01 property_id)

  unfoldable pub build_prop_room_exist : Value → Result Bytes
  build_prop_room_exist payload = do
    property_id ← non_empty (text json payload (codes "property_id")) (codes "property_id")
    room_type ← non_empty (text json payload (codes "room_type")) (codes "room_type")
    ok (
        counted (codes "PROPROOMEXIST") 2
        ++ (field 0x01 0x01 property_id ++ field 0x02 0x01 room_type))

  module _ (handler : Backend) (seg : Bytes) (payload : Value) (metrics : Metrics) where
    unfoldable pub process_prop_exist : Option (Response × Metrics)
    unfolding perform
    process_prop_exist = perform handler seg false (build_prop_exist payload) decode_exists metrics

    unfoldable pub process_prop_room_exist : Option (Response × Metrics)
    unfolding perform
    process_prop_room_exist =
        perform handler seg false (build_prop_room_exist payload) decode_exists metrics
