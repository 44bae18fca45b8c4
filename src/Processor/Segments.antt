-- ===== src/Processor/Segments.antt =====
-- src/processor/get_segments.rs: GETSEGMENTS. The fields of a response come in pairs: the name of a
-- segment, and the number of its properties. The counter `expected_id` is a u16, which wraps as in a
-- release build.
pub mod Ends
pub mod Pairs
pub mod Listed
use rzgate.Prelude.{
  ℕ, zero, suc, ◌+◌, ◌%◌, ◌==◌, ◌||◌, not, Bool, true, false, leb, ltb, List, [], ◌∷◌, ◌++◌, length,
  Option, none, some, equal, if◌then◌else◌,
}
use rzgate.Bytes.{Bytes, codes}
use rzgate.Decimal.{decimal}
use rzgate.Flow.{Flow, next, invalid, panic, stuck, ◌>>=◌, slice, read_u32}
use rzgate.RzError.{Result, ok, err, validation}
use rzgate.Metrics.{Metrics}
use rzgate.Http.{Response, json_response, status_ok}
use rzgate.Render.{comma_separated}
use rzgate.Protocol.Reply.{reject_if, ◌>>◌, success, Prologue, read_prologue, Head, read_head}
use rzgate.Protocol.Response.{handle_non_success_status, sent_ok}
use rzgate.Processor.Json.{Json}
use rzgate.Processor.Request.{counted}
use rzgate.Processor.Perform.{Backend, perform}

-- `segments : Vec<(Vec<u8>, Option<u32>)>`
abbrev pub Segment : Type 0
Segment = Bytes × Option ℕ

-- `if let Some(last) = segments.last_mut() { last.1 = Some(prop_count) } else { .. }`
unfoldable pub set_last : List Segment → ℕ → Flow (List Segment)
set_last [] prop_count = invalid
set_last ((name, _) ∷ []) prop_count = next ((name, some prop_count) ∷ [])
set_last (s ∷ t ∷ ss) prop_count = set_last (t ∷ ss) prop_count >>= λ rest. next (s ∷ rest)

-- An odd id is a name, and an even one the number of properties of the last segment.
unfoldable pub take_field : ℕ → Head → Bytes → List Segment → Flow (List Segment)
unfolding set_last
take_field expected_id head field_data segments =
    if expected_id % 2 == 1
    then reject_if (not (head.field_type == 0x01)) >> next (segments ++ ((field_data, none) ∷ []))
    else reject_if (not (head.field_type == 0x03) || not (head.len == 4))
      >> (read_u32 field_data 0 >>= λ prop_count. set_last segments prop_count)

-- The loop's two results.
pub record Seen : Type 0 where
  pub segments : List Segment
  pub expected_id : ℕ

-- The loop. Each round takes a field's head and data, so that the length of the payload is enough fuel.
unfoldable pub scan_segments : ℕ → Bytes → ℕ → Seen → Flow Seen
scan_segments zero bytes offset s = stuck
scan_segments (suc fuel) bytes offset s =
    if leb (offset + 7) (length bytes)
    then (do
      head ← read_head bytes offset
      reject_if (not (head.id == s.expected_id))
      reject_if (ltb (length bytes) (offset + 7 + head.len))
      field_data ← slice bytes (offset + 7) (offset + 7 + head.len)
      segments ← take_field s.expected_id head field_data s.segments
      scan_segments fuel bytes (offset + 7 + head.len)
          (record { segments = segments; expected_id = (s.expected_id + 1) % 65536 }))
    else next s

-- `{"segment":"..","propCount":..}`
abbrev pub segment_json : Bytes → ℕ → Bytes
segment_json name n =
    codes "{\"segment\":\"" ++ (name ++ (codes "\",\"propCount\":" ++ (decimal n ++ codes "}")))

-- `prop_count.unwrap()` panics on a segment without its number.
unfoldable pub segment_jsons : List Segment → Flow (List Bytes)
segment_jsons [] = next []
segment_jsons ((name, none) ∷ ss) = panic
segment_jsons ((name, some n) ∷ ss) = segment_jsons ss >>= λ rest. next (segment_json name n ∷ rest)

abbrev pub segments_json : List Bytes → Bytes
segments_json pieces =
    codes "{\"status\":\"success\",\"segments\":[" ++ (comma_separated pieces ++ codes "]}")

unfoldable pub decode_get_segments_response : Metrics → Bytes → Flow (Response × Metrics)
unfolding scan_segments segment_jsons
decode_get_segments_response metrics bytes = do
  p ← read_prologue bytes
  if not (equal p.status success)
      then handle_non_success_status metrics bytes p.status p.field_count p.offset
      else if p.field_count == 0
      then next
          (json_response status_ok (codes "{\"status\":\"success\",\"segments\":[]}"), metrics)
      else do
        reject_if (not (p.field_count % 2 == 0))
        s ← scan_segments (length bytes) bytes p.offset (record { segments = []; expected_id = 1 })
        reject_if (not ((s.expected_id + 65535) % 65536 == p.field_count))
        pieces ← segment_jsons s.segments
        next (sent_ok metrics (segments_json pieces))

module _ (json : Json) where
  open json use {Value, is_object}

  unfoldable pub build_get_segments : Value → Result Bytes
  build_get_segments payload =
      if not (is_object payload)
      then err (validation (codes "invalid payload"))
      else ok (counted (codes "GETSEGMENTS") 0)

  unfoldable pub process_get_segments : Backend → Value → Metrics → Option (Response × Metrics)
  unfolding perform
  process_get_segments handler payload metrics =
      perform handler (codes "GETSEGMENTS") false (build_get_segments payload)
        decode_get_segments_response metrics
