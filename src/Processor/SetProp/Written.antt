-- ===== src/Processor/SetProp/Written.antt =====
-- The request of SETPROP for the nine values of a valid payload.
use rzgate.Prelude.{ℕ, ◌≡◌, ◌≤◌, [], ◌∷◌, List, arith, true, some}
use rzgate.Bytes.{Bytes, codes, u64_le}
use rzgate.F64.{in_range, minus_90, plus_90, minus_180, plus_180}
use rzgate.RzError.{ok}
use rzgate.Protocol.{Field}
use rzgate.Protocol.Reply.Encoding.{Fits}
use rzgate.Processor.Json.{Json, text, number, float, texts}
use rzgate.Processor.Request.{begin, add_field}
use rzgate.Processor.Request.Layout.{text_field, Built, begin-Built, add_field-Built}
use rzgate.Processor.SetProp.{stars_of, degrees_of, join, or_empty}

-- The nine values of a valid SETPROP payload.
pub record Property : Type 0 where
  pub segment : Bytes
  pub area : Bytes
  pub property_id : Bytes
  pub property_type : Bytes
  pub category : Bytes
  pub stars : ℕ
  pub latitude : ℕ
  pub longitude : ℕ
  pub amenities : Bytes

abbrev pub fields_of : Property → List Field
fields_of p =
    text_field 1 p.segment
    ∷ text_field 2 p.area
    ∷ text_field 3 p.property_id
    ∷ text_field 4 p.property_type
    ∷ text_field 5 p.category
    ∷ record { id = 6; field_type = 0x02; payload = p.stars ∷ [] }
    ∷ record { id = 7; field_type = 0x03; payload = u64_le p.latitude }
    ∷ record { id = 8; field_type = 0x03; payload = u64_le p.longitude }
    ∷ text_field 9 p.amenities
    ∷ []

module _ (json : Json) where
  -- The payload holds these values, and they are valid.
  pub record IsProperty (payload : json.Value) (p : Property) : Type 0 where
    pub has_segment : text json payload (codes "segment") ≡ some p.segment
    pub has_area : text json payload (codes "area") ≡ some p.area
    pub has_property_id : text json payload (codes "property_id") ≡ some p.property_id
    pub has_property_type : text json payload (codes "property_type") ≡ some p.property_type
    pub has_category : text json payload (codes "category") ≡ some p.category
    pub has_stars : number json payload (codes "stars") ≡ some p.stars
    pub stars_valid : (1 ≤ p.stars) × (p.stars ≤ 5)
    pub has_latitude : float json payload (codes "latitude") ≡ some p.latitude
    pub latitude_valid : in_range minus_90 plus_90 p.latitude ≡ true
    pub has_longitude : float json payload (codes "longitude") ≡ some p.longitude
    pub longitude_valid : in_range minus_180 plus_180 p.longitude ≡ true
    pub has_amenities : join (or_empty (texts json payload (codes "amenities"))) ≡ p.amenities

pub written :
    (p : Property)
    → Fits (text_field 1 p.segment)
    → Fits (text_field 2 p.area)
    → Fits (text_field 3 p.property_id)
    → Fits (text_field 4 p.property_type)
    → Fits (text_field 5 p.category)
    → Fits (text_field 9 p.amenities)
    → Built (codes "SETPROP") (fields_of p) (
        add_field
          (add_field
            (add_field
              (add_field
                (add_field
                  (add_field
                    (add_field
                      (add_field (add_field (begin (codes "SETPROP")) 1 1 p.segment) 2 1 p.area)
                      3
                      1
                      p.property_id)
                    4
                    1
                    p.property_type)
                  5
                  1
                  p.category)
                6
                2
                (p.stars ∷ []))
              7
              3
              (u64_le p.latitude))
            8
            3
            (u64_le p.longitude))
          9
          1
          p.amenities)
written p h1 h2 h3 h4 h5 h9 =
    let b1 =
      add_field-Built (codes "SETPROP") (omega arith) [] _ (text_field 1 p.segment)
        (begin-Built (codes "SETPROP") (omega arith)) h1 (omega arith) in
    let b2 =
      add_field-Built (codes "SETPROP") (omega arith) _ _ (text_field 2 p.area) b1 h2
        (omega arith) in
    let b3 =
      add_field-Built (codes "SETPROP") (omega arith) _ _ (text_field 3 p.property_id) b2 h3
        (omega arith) in
    let b4 =
      add_field-Built (codes "SETPROP") (omega arith) _ _ (text_field 4 p.property_type) b3 h4
        (omega arith) in
    let b5 =
      add_field-Built (codes "SETPROP") (omega arith) _ _ (text_field 5 p.category) b4 h5
        (omega arith) in
    let b6 =
      add_field-Built (codes "SETPROP") (omega arith) _ _
        (record { id = 6; field_type = 0x02; payload = p.stars ∷ [] }) b5
        (record { id_fits = omega arith; len_fits = omega arith }) (omega arith) in
    let b7 =
      add_field-Built (codes "SETPROP") (omega arith) _ _
        (record { id = 7; field_type = 0x03; payload = u64_le p.latitude }) b6
        (record { id_fits = omega arith; len_fits = omega arith }) (omega arith) in
    let b8 =
      add_field-Built (codes "SETPROP") (omega arith) _ _
        (record { id = 8; field_type = 0x03; payload = u64_le p.longitude }) b7
        (record { id_fits = omega arith; len_fits = omega arith }) (omega arith) in
    add_field-Built (codes "SETPROP") (omega arith) _ _ (text_field 9 p.amenities) b8 h9
      (omega arith)

pub stars_of_valid : (s : ℕ) → (1 ≤ s) × (s ≤ 5) → stars_of (some s) ≡ ok s
unfolding stars_of
stars_of_valid s h = ground arith

pub degrees_of_valid :
    (lo hi x : ℕ) (message : Bytes)
    → in_range lo hi x ≡ true
    → degrees_of lo hi message (some x) ≡ ok x
unfolding degrees_of
degrees_of_valid lo hi x message h = rw h
