-- ===== src/Processor/RoomList.antt =====
-- src/processor/prop_room_list.rs: PROPROOMLIST. The decoder reads fields up to the end of the
-- payload. Its counter `expected_id` is a u16, which wraps as in a release build.
pub mod Ends
pub mod Listed
use rzgate.Prelude.{
  ℕ, zero, suc, ◌+◌, ◌%◌, ◌==◌, not, true, false, leb, ltb, List, [], ◌∷◌, ◌++◌, length, Option,
  equal, if◌then◌else◌,
}
use rzgate.Bytes.{Bytes, codes}
use rzgate.Utf8.{from_utf8_lossy}
use rzgate.Flow.{Flow, next, stuck, ◌>>=◌, slice}
use rzgate.RzError.{Result, ok, err}
use rzgate.Metrics.{Metrics}
use rzgate.Http.{Response, json_response, status_ok}
use rzgate.Render.{quoted_list}
use rzgate.Protocol.Reply.{reject_if, ◌>>◌, success, Prologue, read_prologue, Head, read_head}
use rzgate.Protocol.Response.{handle_non_success_status, sent_ok}
use rzgate.Processor.Json.{Json, text}
use rzgate.Processor.Request.{counted, field, non_empty}
use rzgate.Processor.Perform.{Backend, perform}

-- The loop's two results.
pub record Names : Type 0 where
  pub room_types : List Bytes
  pub expected_id : ℕ

-- The loop. Each round takes a field's head and data, so that the length of the payload is enough fuel.
unfoldable pub scan_names : ℕ → Bytes → ℕ → Names → Flow Names
scan_names zero bytes offset s = stuck
scan_names (suc fuel) bytes offset s =
    if leb (offset + 7) (length bytes)
    then (do
      h ← read_head bytes offset
      reject_if (not (h.id == s.expected_id))
      reject_if (not (h.field_type == 0x01))
      reject_if (ltb (length bytes) (offset + 7 + h.len))
      room_type_bytes ← slice bytes (offset + 7) (offset + 7 + h.len)
      scan_names fuel bytes (offset + 7 + h.len) (record {
        room_types = s.room_types ++ (from_utf8_lossy room_type_bytes ∷ []);
        expected_id = (s.expected_id + 1) % 65536;
      }))
    else next s

abbrev pub names_json : List Bytes → Bytes
names_json names =
    codes "{\"status\":\"success\",\"room_types\":[" ++ (quoted_list names ++ codes "]}")

-- Only the empty list is counted as sent bytes.
unfoldable pub decode_prop_room_list_response : Metrics → Bytes → Flow (Response × Metrics)
unfolding scan_names
decode_prop_room_list_response metrics bytes = do
  p ← read_prologue bytes
  if not (equal p.status success)
      then handle_non_success_status metrics bytes p.status p.field_count p.offset
      else if p.field_count == 0
      then next (sent_ok metrics (codes "{\"status\":\"success\",\"room_types\":[]}"))
      else do
        s ← scan_names (length bytes) bytes p.offset (record { room_types = []; expected_id = 1 })
        reject_if (not ((s.expected_id + 65535) % 65536 == p.field_count))
        next (json_response status_ok (names_json s.room_types), metrics)

-- The request of the checked identifier.
unfoldable pub list_request : Result Bytes → Result Bytes
list_request (err e) = err e
list_request (ok property_id) = ok (counted (codes "PROPROOMLIST") 1 ++ field 0x01 0x01 property_id)

module _ (json : Json) where
  open json use {Value}

  unfoldable pub build_prop_room_list : Value → Result Bytes
  unfolding list_request
  build_prop_room_list payload =
      list_request (non_empty (text json payload (codes "property_id")) (codes "property_id"))

  unfoldable pub process_prop_room_list :
      Backend → Bytes → Value → Metrics → Option (Response × Metrics)
  unfolding perform
  process_prop_room_list handler seg payload metrics =
      perform handler seg false (build_prop_room_list payload) decode_prop_room_list_response
        metrics
