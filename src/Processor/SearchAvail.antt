-- ===== src/Processor/SearchAvail.antt =====
-- src/processor/search_avail.rs: the response of SEARCHAVAIL. Its first field is a number of days, and then
-- the fields come in pairs: a property id, and the vector of its days, of eleven bytes each. The JSON text
-- is written while the fields are read. The counter `current_field` is a u16, which wraps as in
-- a release build.
pub mod Request
pub mod Ends
pub mod Days
pub mod Properties
pub mod Listed
mod Examples
use rzgate.Prelude.{
  ℕ, zero, suc, ◌+◌, ◌*◌, ◌%◌, ◌==◌, ◌||◌, ◌&&◌, not, Bool, true, false, leb, ltb, [], ◌∷◌, ◌++◌,
  length, Option, none, some, equal, if◌then◌else◌,
}
use rzgate.Bytes.{Bytes, codes}
use rzgate.Decimal.{decimal}
use rzgate.Flow.{Flow, next, invalid, stuck, ◌>>=◌, index, slice, read_u16, read_u32}
use rzgate.RzError.{Result, ok, err}
use rzgate.Metrics.{Metrics}
use rzgate.Http.{Response, json_response, status_ok}
use rzgate.Bitmask.{Cell}
use rzgate.Protocol.Reply.{reject_if, ◌>>◌, success, Prologue, read_prologue, Head, read_head}
use rzgate.Protocol.Response.{handle_non_success_status}
use rzgate.Helper.PropertyId.{write_quoted_property_id}
use rzgate.Helper.PackedDate.{Calendar, write_packed_date}
use rzgate.Helper.RateFeatures.{write_rate_features_array}
use rzgate.Processor.Json.{Json}
use rzgate.Processor.Perform.{Backend, perform}
use rzgate.Processor.SearchAvail.Request.{build_search_avail}

-- `if !first { json.push(b','); }`
abbrev pub with_comma : Bytes → Bool → Bytes
with_comma json true = json
with_comma json false = json ++ (b',' ∷ [])

-- `if write_packed_date(..).is_err() { return invalid_response(); }`
abbrev pub or_reject : Result Bytes → Flow Bytes
or_reject (ok json) = next json
or_reject (err e) = invalid

-- The days' vector behind a property id: its head, which must announce the next field and the type 0x08,
-- its data, and the offset behind it.
unfoldable pub read_days_field : Bytes → ℕ → ℕ → Flow (Bytes × ℕ)
read_days_field bytes offset current_field = do
  reject_if (ltb (length bytes) (offset + 7))
  head ← read_head bytes offset
  reject_if (not (head.id == (current_field + 1) % 65536))
  reject_if (not (head.field_type == 0x08) || ltb (length bytes) (offset + 7 + head.len))
  days_data ← slice bytes (offset + 7) (offset + 7 + head.len)
  next (days_data, offset + 7 + head.len)

-- The length of a days' vector must be two bytes for the number of days, and eleven for each.
unfoldable pub read_days_count : Bytes → Flow ℕ
read_days_count days_data = do
  reject_if (ltb (length days_data) 2)
  days_count ← read_u16 days_data 0
  reject_if (not (length days_data == 2 + 11 * days_count))
  next days_count

-- The loop's three variables.
pub record Written : Type 0 where
  pub json : Bytes
  pub current_field : ℕ
  pub first_property : Bool

abbrev pub properties_head : Bytes
properties_head = codes "{\"status\":\"success\",\"properties\":["

module _ (cal : Calendar) (current_year : ℕ) (cell : Cell) where
  -- `{"date":"..","availability":..,"final_price":..,"rate_feature":[..]}` from the eleven bytes at `d_off`.
  unfoldable pub write_day : Bytes → Bytes → ℕ → Flow Bytes
  write_day json days_data d_off = do
    date_packed ← read_u16 days_data d_off
    dated ← or_reject (
        write_packed_date cal current_year (json ++ (codes "{" ++ codes "\"date\":\"")) date_packed)
    availability ← index days_data (d_off + 2)
    final_price ← read_u32 days_data (d_off + 3)
    rate_mask ← read_u32 days_data (d_off + 7)
    next (
        write_rate_features_array cell
          (dated
            ++ (codes "\",\"availability\":"
                ++ (decimal availability
                    ++ (codes ",\"final_price\":" ++ (decimal final_price ++ codes ",")))))
          rate_mask
        ++ codes "}")

  -- `for _ in 0..days_count`, with `rounds` to go.
  unfoldable pub write_days : (rounds : ℕ) → Bytes → Bool → Bytes → ℕ → Flow Bytes
  unfolding write_day
  write_days zero json first_day days_data d_off = next json
  write_days (suc rounds) json first_day days_data d_off = do
    written ← write_day (with_comma json first_day) days_data d_off
    write_days rounds written false days_data (d_off + 11)

  -- The property that begins with its id, up to the end of its days: the text, and the offset behind it.
  unfoldable pub write_property : Bytes → ℕ → Bytes → Written → Flow (Bytes × ℕ)
  unfolding write_days
  write_property bytes offset field_data s = do
    (days_data, after) ← read_days_field bytes offset s.current_field
    days_count ← read_days_count days_data
    json ←
        write_days days_count
          (write_quoted_property_id
              (with_comma s.json s.first_property ++ (codes "{" ++ codes "\"property_id\":"))
              field_data
            ++ codes ",\"days\":[")
          true days_data 2
    next (json ++ codes "]}", after)

  -- `match (current_field, field_type)`: the number of days, which is not used further, or a property;
  -- `offset` is behind the field.
  unfoldable pub take_field : Bytes → ℕ → Head → Bytes → Written → Flow (Written × ℕ)
  unfolding write_property
  take_field bytes offset head field_data s =
      if s.current_field == 1 && head.field_type == 0x02
      then (do
        reject_if (not (head.len == 2))
        num_days ← read_u16 field_data 0
        next (record s { current_field = (s.current_field + 1) % 65536 }, offset))
      else if head.field_type == 0x01 && s.current_field % 2 == 0
      then (do
        (json, after) ← write_property bytes offset field_data s
        next (
          record {
            json = json;
            current_field = ((s.current_field + 1) % 65536 + 1) % 65536;
            first_property = false;
          },
          after,
        ))
      else invalid

  -- The loop. Each round takes a field's head at least, so that the length of the payload is enough fuel.
  unfoldable pub scan_avail : ℕ → Bytes → ℕ → Written → Flow Written
  scan_avail zero bytes offset s = stuck
  scan_avail (suc fuel) bytes offset s =
      if leb (offset + 7) (length bytes)
      then (do
        head ← read_head bytes offset
        reject_if (not (head.id == s.current_field))
        reject_if (ltb (length bytes) (offset + 7 + head.len))
        field_data ← slice bytes (offset + 7) (offset + 7 + head.len)
        (after, offset2) ← take_field bytes (offset + 7 + head.len) head field_data s
        scan_avail fuel bytes offset2 after)
      else next s

  -- No answer of a success is counted in the metrics.
  unfoldable pub decode_search_avail_response : Metrics → Bytes → Flow (Response × Metrics)
  unfolding scan_avail
  decode_search_avail_response metrics bytes = do
    p ← read_prologue bytes
    if not (equal p.status success)
        then handle_non_success_status metrics bytes p.status p.field_count p.offset
        else if p.field_count == 0
        then next (json_response status_ok (properties_head ++ codes "]}"), metrics)
        else do
          reject_if (ltb p.field_count 1 || not ((p.field_count + 65535) % 65536 % 2 == 0))
          s ←
              scan_avail (length bytes) bytes p.offset
                (record { json = properties_head; current_field = 1; first_property = true })
          reject_if (not ((s.current_field + 65535) % 65536 == p.field_count))
          next (json_response status_ok (s.json ++ codes "]}"), metrics)

  unfoldable pub process_search_avail :
      (json : Json) → Backend → Bytes → json.Value → Metrics → Option (Response × Metrics)
  unfolding perform
  process_search_avail json handler seg payload metrics =
      perform handler seg false (build_search_avail json payload) decode_search_avail_response
        metrics
