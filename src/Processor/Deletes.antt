-- ===== src/Processor/Deletes.antt =====
-- src/processor/del_prop.rs, del_prop_day.rs, del_prop_room.rs, del_room_day.rs and del_segment.rs:
-- the commands that delete. They are writes, and are answered by `decode_simple_response`.
pub mod Format
use rzgate.Prelude.{ℕ, ◌++◌, true, Option}
use rzgate.Bytes.{Bytes, codes}
use rzgate.RzError.{Result, ok, ◌>>=◌}
use rzgate.Metrics.{Metrics}
use rzgate.Http.{Response}
use rzgate.Protocol.Response.{decode_simple_response}
use rzgate.Processor.Json.{Json, text}
use rzgate.Processor.Request.{counted, field, non_empty}
use rzgate.Processor.Perform.{Backend, perform}

module _ (json : Json) where
  open json use {Value}

  unfoldable pub build_del_prop : Value → Result Bytes
  build_del_prop payload = do
    property_id ← non_empty (text json payload (codes "property_id")) (codes "property_id")
    ok (counted (codes "DELPROP") 1 ++ field 0x01 0x01 property_id)

  unfoldable pub build_del_segment : Value → Result Bytes
  build_del_segment payload = do
    segment ← non_empty (text json payload (codes "segment")) (codes "segment")
    ok (counted (codes "DELSEGMENT") 1 ++ field 0x01 0x01 segment)

  unfoldable pub build_del_prop_day : Value → Result Bytes
  build_del_prop_day payload = do
    property_id ← non_empty (text json payload (codes "property_id")) (codes "property_id")
    date ← non_empty (text json payload (codes "date")) (codes "date")
    ok (counted (codes "DELPROPDAY") 2 ++ (field 0x01 0x01 property_id ++ field 0x02 0x01 date))

  unfoldable pub build_del_prop_room : Value → Result Bytes
  build_del_prop_room payload = do
    property_id ← non_empty (text json payload (codes "property_id")) (codes "property_id")
    room_type ← non_empty (text json payload (codes "room_type")) (codes "room_type")
    ok (
        counted (codes "DELPROPROOM") 2
        ++ (field 0x01 0x01 property_id ++ field 0x02 0x01 room_type))

  unfoldable pub build_del_room_day : Value → Result Bytes
  build_del_room_day payload = do
    property_id ← non_empty (text json payload (codes "property_id")) (codes "property_id")
    room_type ← non_empty (text json payload (codes "room_type")) (codes "room_type")
    date ← non_empty (text json payload (codes "date")) (codes "date")
    ok (
        counted (codes "DELROOMDAY") 3
        ++ (field 0x01 0x01 property_id ++ (field 0x02 0x01 room_type ++ field 0x03 0x01 date)))

  module _ (handler : Backend) (seg : Bytes) (payload : Value) (metrics : Metrics) where
    unfoldable pub process_del_prop : Option (Response × Metrics)
    unfolding perform
    process_del_prop =
        perform handler seg true (build_del_prop payload) decode_simple_response metrics

    unfoldable pub process_del_segment : Option (Response × Metrics)
    unfolding perform
    process_del_segment =
        perform handler seg true (build_del_segment payload) decode_simple_response metrics

    unfoldable pub process_del_prop_day : Option (Response × Metrics)
    unfolding perform
    process_del_prop_day =
        perform handler seg true (build_del_prop_day payload) decode_simple_response metrics

    unfoldable pub process_del_prop_room : Option (Response × Metrics)
    unfolding perform
    process_del_prop_room =
        perform handler seg true (build_del_prop_room payload) decode_simple_response metrics

    unfoldable pub process_del_room_day : Option (Response × Metrics)
    unfolding perform
    process_del_room_day =
        perform handler seg true (build_del_room_day payload) decode_simple_response metrics
