-- ===== src/Processor/RoomDay.antt =====
-- src/processor/get_prop_room_day.rs: GETPROPROOMDAY. A response has five fields and nothing behind them.
-- The text of UUIDs is the crate's, and the cell is that of src/bitmask.rs.
pub mod Request
pub mod Ends
pub mod Listed
use rzgate.Prelude.{
  ℕ, ◌+◌, ◌==◌, ◌||◌, not, Bool, true, false, leb, ltb, List, [], ◌∷◌, ◌++◌, length, Option, none,
  some, equal, if◌then◌else◌,
}
use rzgate.Bytes.{Bytes, codes}
use rzgate.Decimal.{decimal}
use rzgate.Utf8.{from_utf8}
use rzgate.Flow.{Flow, next, invalid, ◌>>=◌, index, slice, read_u32}
use rzgate.RzError.{Result, ok, err}
use rzgate.Metrics.{Metrics}
use rzgate.Http.{Response}
use rzgate.Render.{quoted_list}
use rzgate.Bitmask.{Cell}
use rzgate.Protocol.{Field}
use rzgate.Protocol.Reply.{reject_if, ◌>>◌, success, Prologue, read_prologue, Head, read_head}
use rzgate.Protocol.Response.{handle_non_success_status, sent_ok}
use rzgate.Helper.PropertyId.{bytes_to_property_id}
use rzgate.Helper.RateFeatures.{bitmask_to_rate_feature_strings}
use rzgate.Processor.Json.{Json}
use rzgate.Processor.Perform.{Backend, perform}
use rzgate.Processor.RoomDay.Request.{build_get_prop_room_day}

-- `read_field!()`: the field, and the offset behind it.
unfoldable pub read_field : Bytes → ℕ → Flow (Field × ℕ)
read_field bytes offset = do
  reject_if (ltb (length bytes) (offset + 7))
  head ← read_head bytes offset
  reject_if (ltb (length bytes) (offset + 7 + head.len))
  data_bytes ← slice bytes (offset + 7) (offset + 7 + head.len)
  next (
    record { id = head.id; field_type = head.field_type; payload = data_bytes },
    offset + 7 + head.len,
  )

-- The five values of a response.
pub record Day : Type 0 where
  pub property_id : Bytes
  pub date : Bytes
  pub availability : ℕ
  pub final_price : ℕ
  pub rate_feature_mask : ℕ

-- The five fields and their checks, up to the end of the payload.
unfoldable pub read_day : Bytes → ℕ → Flow Day
unfolding read_field
read_day bytes offset = do
  (f1, offset1) ← read_field bytes offset
  reject_if (not (f1.id == 1) || not (f1.field_type == 0x01))
  (f2, offset2) ← read_field bytes offset1
  reject_if (not (f2.id == 2) || not (f2.field_type == 0x01))
  (f3, offset3) ← read_field bytes offset2
  reject_if (not (f3.id == 3) || not (f3.field_type == 0x02) || not (length f3.payload == 1))
  availability ← index f3.payload 0
  (f4, offset4) ← read_field bytes offset3
  reject_if (not (f4.id == 4) || not (f4.field_type == 0x03) || not (length f4.payload == 4))
  final_price ← read_u32 f4.payload 0
  (f5, offset5) ← read_field bytes offset4
  reject_if (not (f5.id == 5) || not (f5.field_type == 0x03) || not (length f5.payload == 4))
  rate_feature_mask ← read_u32 f5.payload 0
  reject_if (not (offset5 == length bytes))
  next (record {
    property_id = f1.payload;
    date = f2.payload;
    availability = availability;
    final_price = final_price;
    rate_feature_mask = rate_feature_mask;
  })

-- `std::str::from_utf8(date_bytes).unwrap_or("invalid-date")`
unfoldable pub date_text : Bytes → Bytes
date_text date_bytes = elim (from_utf8 date_bytes) [
  | some date ↦ date
  | none ↦ codes "invalid-date"
]

abbrev pub day_json : Bytes → Bytes → ℕ → ℕ → List Bytes → Bytes
day_json property_id date availability final_price rate_features =
    codes "{\"status\":\"success\",\"property_id\":\""
    ++ (property_id
        ++ (codes "\",\"date\":\""
            ++ (date
                ++ (codes "\",\"availability\":"
                    ++ (decimal availability
                        ++ (codes ",\"final_price\":"
                            ++ (decimal final_price
                                ++ (codes ",\"rate_feature\":["
                                    ++ (quoted_list rate_features ++ codes "]}")))))))))

-- `Err(_) => return invalid_response()`
abbrev pub or_invalid : Result (List Bytes) → Flow (List Bytes)
or_invalid (ok features) = next features
or_invalid (err e) = invalid

module _ (uuid_to_string : Bytes → Bytes) (cell : Cell) where
  unfoldable pub decode_get_prop_room_day_response : Metrics → Bytes → Flow (Response × Metrics)
  unfolding read_day date_text
  decode_get_prop_room_day_response metrics bytes = do
    p ← read_prologue bytes
    if not (equal p.status success)
        then handle_non_success_status metrics bytes p.status p.field_count p.offset
        else do
          reject_if (not (p.field_count == 5))
          day ← read_day bytes p.offset
          rate_features ← or_invalid (bitmask_to_rate_feature_strings cell day.rate_feature_mask)
          next (
              sent_ok metrics (
                day_json (bytes_to_property_id uuid_to_string day.property_id) (date_text day.date)
                  day.availability day.final_price rate_features))

  unfoldable pub process_get_prop_room_day :
      (json : Json) → Backend → Bytes → json.Value → Metrics → Option (Response × Metrics)
  unfolding perform
  process_get_prop_room_day json handler seg payload metrics =
      perform handler seg false (build_get_prop_room_day json payload)
        decode_get_prop_room_day_response metrics
