-- ===== src/Processor/SearchProp.antt =====
-- src/processor/search_prop.rs: SEARCHPROP. A field is added for each filter that the payload holds. A
-- SUCCESS response with one field is taken for an error, and one with more for a list of property ids.
pub mod Format
pub mod Ends
pub mod Listed
use rzgate.Prelude.{
  ℕ, zero, suc, ◌+◌, ◌==◌, ◌||◌, ◌&&◌, not, Bool, true, false, leb, ltb, List, [], ◌∷◌, ◌++◌,
  length, Option, none, some, equal, if◌then◌else◌,
}
use rzgate.Bytes.{Bytes, codes, u64_le}
use rzgate.F64.{in_range, minus_90, plus_90, minus_180, plus_180}
use rzgate.Flow.{Flow, next, ◌>>=◌, slice}
use rzgate.RzError.{Result, ok, err}
use rzgate.Metrics.{Metrics}
use rzgate.Http.{Response, json_response, status_ok, bad_request}
use rzgate.Render.{quoted_list}
use rzgate.Protocol.Reply.{reject_if, ◌>>◌, success, Prologue, read_prologue, Head, read_head}
use rzgate.Protocol.Response.{handle_non_success_status, sent_ok, error_json}
use rzgate.Helper.PropertyId.{bytes_to_property_id}
use rzgate.Processor.Json.{Json, text, number, float, texts}
use rzgate.Processor.SetRoomPkg.{rate_feature_of}
use rzgate.Processor.Request.{Builder, begin, add_field, add_optional, finish, present}
use rzgate.Processor.Perform.{Backend, perform}

-- `.filter(|&s| s >= 1 && s <= 5).map(|s| s as u8)`; the field's data is the one byte.
unfoldable pub stars_filter : Option ℕ → Option Bytes
stars_filter none = none
stars_filter (some s) = if leb 1 s && leb s 5 then some (s ∷ []) else none

-- `.filter(|&x| x >= lo && x <= hi)`; the field's data are the eight bytes.
unfoldable pub degrees_filter : ℕ → ℕ → Option ℕ → Option Bytes
degrees_filter lo hi none = none
degrees_filter lo hi (some x) = if in_range lo hi x then some (u64_le x) else none

unfoldable pub limit_filter : Option ℕ → Option Bytes
limit_filter none = none
limit_filter (some l) = some (u64_le l)

-- The fields, once the segment is there. The amenities are joined as the rate features of SETROOMPKG are.
unfoldable pub search_request : (json : Json) → json.Value → Result Bytes → Result Bytes
search_request json payload (err e) = err e
search_request json payload (ok segment) =
    let b1 = add_field (begin (codes "SEARCHPROP")) 0x01 0x01 segment in
    let b2 = add_optional b1 0x02 0x01 (text json payload (codes "area")) in
    let b3 = add_optional b2 0x03 0x01 (text json payload (codes "property_type")) in
    let b4 = add_optional b3 0x04 0x02 (stars_filter (number json payload (codes "stars"))) in
    let b5 = add_optional b4 0x05 0x01 (text json payload (codes "category")) in
    let b6 = add_optional b5 0x06 0x01 (rate_feature_of (texts json payload (codes "amenities"))) in
    let b7 =
      add_optional b6 0x07 0x03
        (degrees_filter minus_180 plus_180 (float json payload (codes "longitude"))) in
    let b8 =
      add_optional b7 0x08 0x03
        (degrees_filter minus_90 plus_90 (float json payload (codes "latitude"))) in
    let b9 = add_optional b8 0x09 0x03 (limit_filter (number json payload (codes "limit"))) in
    ok (finish (codes "SEARCHPROP") b9)

unfoldable pub build_search_prop : (json : Json) → json.Value → Result Bytes
unfolding search_request
build_search_prop json payload =
    search_request json payload (present (text json payload (codes "segment")) (codes "segment"))

-- `if message.is_empty() { b"UNKNOWN_ERROR" } else { message }`
abbrev pub or_unknown : Bytes → Bytes
or_unknown [] = codes "UNKNOWN_ERROR"
or_unknown (b ∷ bs) = b ∷ bs

-- The head and the data of one field, with the id that is expected, and the offset behind it.
unfoldable pub read_text_field : Bytes → ℕ → ℕ → Flow (Bytes × ℕ)
read_text_field bytes expected_id offset = do
  reject_if (ltb (length bytes) (offset + 7))
  head ← read_head bytes offset
  reject_if (not (head.id == expected_id) || not (head.field_type == 0x01))
  reject_if (ltb (length bytes) (offset + 7 + head.len))
  field_data ← slice bytes (offset + 7) (offset + 7 + head.len)
  next (field_data, offset + 7 + head.len)

module _ (uuid_to_string : Bytes → Bytes) where
  -- `for expected_id in 1..=field_count`, with `left` fields to go.
  unfoldable pub read_properties : (left : ℕ) → Bytes → (expected_id offset : ℕ) → Flow (List Bytes)
  unfolding read_text_field
  read_properties zero bytes expected_id offset = next []
  read_properties (suc left) bytes expected_id offset = do
    (raw_bytes, after) ← read_text_field bytes expected_id offset
    properties ← read_properties left bytes (expected_id + 1) after
    next (bytes_to_property_id uuid_to_string raw_bytes ∷ properties)

  -- Neither the error nor the list is counted.
  unfoldable pub decode_search_prop_response : Metrics → Bytes → Flow (Response × Metrics)
  unfolding read_properties read_text_field
  decode_search_prop_response metrics bytes = do
    p ← read_prologue bytes
    if not (equal p.status success)
        then handle_non_success_status metrics bytes p.status p.field_count p.offset
        else if p.field_count == 0
        then next (sent_ok metrics (codes "{\"status\":\"success\",\"properties\":[]}"))
        else if p.field_count == 1
        then (do
          (message, _) ← read_text_field bytes 1 p.offset
          next (json_response bad_request (error_json (or_unknown message)), metrics))
        else (do
          properties ← read_properties p.field_count bytes 1 p.offset
          next (
            json_response status_ok (
                codes "{\"status\":\"success\",\"properties\":["
                ++ (quoted_list properties ++ codes "]}")),
            metrics,
          ))

  unfoldable pub process_search_prop :
      (json : Json) → Backend → Bytes → json.Value → Metrics → Option (Response × Metrics)
  unfolding perform
  process_search_prop json handler seg payload metrics =
      perform handler seg false (build_search_prop json payload) decode_search_prop_response metrics
