-- ===== src/Processor/SetProp.antt =====
-- src/processor/set_prop.rs: SETPROP.
use rzgate.Prelude.{ℕ, [], ◌∷◌, ◌++◌, List, true, Option, none, some, leb, ◌&&◌, if◌then◌else◌}
use rzgate.Bytes.{Bytes, codes, u64_le}
use rzgate.F64.{in_range, minus_90, plus_90, minus_180, plus_180}
use rzgate.RzError.{Result, ok, err, validation, ◌>>=◌}
use rzgate.Metrics.{Metrics}
use rzgate.Http.{Response}
use rzgate.Protocol.Response.{decode_simple_response}
use rzgate.Processor.Json.{Json, text, number, float, texts}
use rzgate.Processor.Request.{begin, add_field, finish, present}
use rzgate.Processor.Perform.{Backend, perform}
pub mod Checks
pub mod Written
pub mod Format

-- `Some(s) if s >= 1 && s <= 5 => s as u8`
unfoldable pub stars_of : Option ℕ → Result ℕ
stars_of none = err (validation (codes "stars must be between 1 and 5"))
stars_of (some s) =
    if leb 1 s && leb s 5 then ok s else err (validation (codes "stars must be between 1 and 5"))

-- `Some(x) if x >= lo && x <= hi => x`
unfoldable pub degrees_of : ℕ → ℕ → Bytes → Option ℕ → Result ℕ
degrees_of lo hi message none = err (validation message)
degrees_of lo hi message (some x) = if in_range lo hi x then ok x else err (validation message)

-- `amenities.join(",")`
abbrev pub join : List Bytes → Bytes
join [] = []
join (s ∷ []) = s
join (s ∷ (t ∷ ss)) = s ++ (codes "," ++ join (t ∷ ss))

-- `Some(arr) => .., None => Vec::new()`
abbrev pub or_empty : Option (List Bytes) → List Bytes
or_empty none = []
or_empty (some ss) = ss

module _ (json : Json) where
  open json use {Value}

  unfoldable pub build_set_prop : Value → Result Bytes
  build_set_prop payload = do
    segment ← present (text json payload (codes "segment")) (codes "segment")
    area ← present (text json payload (codes "area")) (codes "area")
    property_id ← present (text json payload (codes "property_id")) (codes "property_id")
    property_type ← present (text json payload (codes "property_type")) (codes "property_type")
    category ← present (text json payload (codes "category")) (codes "category")
    stars ← stars_of (number json payload (codes "stars"))
    latitude ←
        degrees_of minus_90 plus_90 (codes "latitude must be between -90 and 90")
          (float json payload (codes "latitude"))
    longitude ←
        degrees_of minus_180 plus_180 (codes "longitude must be between -180 and 180")
          (float json payload (codes "longitude"))
    let amenity_str = join (or_empty (texts json payload (codes "amenities")))
    let b1 = add_field (begin (codes "SETPROP")) 0x01 0x01 segment
    let b2 = add_field b1 0x02 0x01 area
    let b3 = add_field b2 0x03 0x01 property_id
    let b4 = add_field b3 0x04 0x01 property_type
    let b5 = add_field b4 0x05 0x01 category
    let b6 = add_field b5 0x06 0x02 (stars ∷ [])
    let b7 = add_field b6 0x07 0x03 (u64_le latitude)
    let b8 = add_field b7 0x08 0x03 (u64_le longitude)
    let b9 = add_field b8 0x09 0x01 amenity_str
    ok (finish (codes "SETPROP") b9)

  unfoldable pub process_set_prop : Backend → Bytes → Value → Metrics → Option (Response × Metrics)
  unfolding perform
  process_set_prop handler seg payload metrics =
      perform handler seg true (build_set_prop payload) decode_simple_response metrics
