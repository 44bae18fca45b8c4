-- ===== src/Processor/DateList.antt =====
-- src/processor/prop_room_date_list.rs: PROPROOMDATELIST. The decoder leaves out empty dates and sorts
-- the others. Its counter `expected_id` is a u16, which wraps as in a release build.
pub mod Order
pub mod Request
pub mod Ends
pub mod Listed
use rzgate.Prelude.{
  ℕ, zero, suc, ◌+◌, ◌%◌, ◌==◌, not, Bool, true, false, leb, ltb, List, [], ◌∷◌, ◌++◌, length,
  Option, equal, if◌then◌else◌,
}
use rzgate.Bytes.{Bytes, codes}
use rzgate.Flow.{Flow, next, stuck, ◌>>=◌, slice}
use rzgate.RzError.{Result}
use rzgate.Metrics.{Metrics}
use rzgate.Http.{Response}
use rzgate.Render.{quoted_list}
use rzgate.Protocol.Reply.{reject_if, ◌>>◌, success, Prologue, read_prologue, Head, read_head}
use rzgate.Protocol.Response.{handle_non_success_status, sent_ok}
use rzgate.Processor.Json.{Json, text}
use rzgate.Processor.Perform.{Backend, perform}
use rzgate.Processor.DateList.Order.{sort}
use rzgate.Processor.DateList.Request.{build_prop_room_date_list}

-- The loop's two results.
pub record Dates : Type 0 where
  pub dates : List Bytes
  pub expected_id : ℕ

-- `if !date_bytes.is_empty() { dates.push(date_bytes.to_vec()) }`
unfoldable pub push_date : List Bytes → Bytes → List Bytes
push_date dates date_bytes =
    if not (length date_bytes == 0) then dates ++ (date_bytes ∷ []) else dates

-- The loop. Each round takes a field's head and data, so that the length of the payload is enough fuel.
unfoldable pub scan_dates : ℕ → Bytes → ℕ → Dates → Flow Dates
unfolding push_date
scan_dates zero bytes offset s = stuck
scan_dates (suc fuel) bytes offset s =
    if leb (offset + 7) (length bytes)
    then (do
      h ← read_head bytes offset
      reject_if (not (h.id == s.expected_id))
      reject_if (not (h.field_type == 0x01))
      reject_if (ltb (length bytes) (offset + 7 + h.len))
      date_bytes ← slice bytes (offset + 7) (offset + 7 + h.len)
      scan_dates fuel bytes (offset + 7 + h.len) (record {
        dates = push_date s.dates date_bytes;
        expected_id = (s.expected_id + 1) % 65536;
      }))
    else next s

abbrev pub dates_json : List Bytes → Bytes
dates_json dates = codes "{\"status\":\"success\",\"dates\":[" ++ (quoted_list dates ++ codes "]}")

unfoldable pub decode_prop_room_date_list_response : Metrics → Bytes → Flow (Response × Metrics)
unfolding scan_dates sort
decode_prop_room_date_list_response metrics bytes = do
  p ← read_prologue bytes
  if not (equal p.status success)
      then handle_non_success_status metrics bytes p.status p.field_count p.offset
      else if p.field_count == 0
      then next (sent_ok metrics (codes "{\"status\":\"success\",\"dates\":[]}"))
      else do
        s ← scan_dates (length bytes) bytes p.offset (record { dates = []; expected_id = 1 })
        reject_if (not ((s.expected_id + 65535) % 65536 == p.field_count))
        next (sent_ok metrics (dates_json (sort s.dates)))

module _ (json : Json) where
  open json use {Value}

  unfoldable pub process_prop_room_date_list :
      Backend → Bytes → Value → Metrics → Option (Response × Metrics)
  unfolding perform
  process_prop_room_date_list handler seg payload metrics =
      perform handler seg false (build_prop_room_date_list json payload)
        decode_prop_room_date_list_response metrics
