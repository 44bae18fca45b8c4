-- ===== src/Processor/SetProp/Format.antt =====
-- The request of SETPROP, against the description of its fields.
use rzgate.Prelude.{◌≡◌, ◌↔◌, refl, ap, length, arith}
use rzgate.Bytes.{Bytes, codes, IsU32}
use rzgate.F64.{minus_90, plus_90, minus_180, plus_180}
use rzgate.RzError.{Result, ok}
use rzgate.Processor.Json.{Json, text, number, float, texts}
use rzgate.Processor.Request.{present}
use rzgate.Processor.Request.Layout.{encode_request, finish-Built}
use rzgate.Processor.Request.Required.{IsShort}
use rzgate.Processor.SetProp.{stars_of, degrees_of, join, or_empty, build_set_prop}
use rzgate.Processor.SetProp.Checks.{bind_ok, present_ok, stars_ok, degrees_ok}
use rzgate.Processor.SetProp.Written.{
  Property, IsProperty, fields_of, written, stars_of_valid, degrees_of_valid,
}

complete :
    (json : Json) (payload : json.Value) (p : Property)
    → IsShort json payload
    → IsU32 (length p.amenities)
    → IsProperty json payload p
    → build_set_prop json payload ≡ ok (encode_request (codes "SETPROP") (fields_of p))
unfolding build_set_prop present
complete json payload p short amenities_short v =
    rw
      (
        v.has_segment,
        v.has_area,
        v.has_property_id,
        v.has_property_type,
        v.has_category,
        v.has_stars,
        stars_of_valid p.stars v.stars_valid,
        v.has_latitude,
        degrees_of_valid minus_90 plus_90 p.latitude (codes "latitude must be between -90 and 90")
            v.latitude_valid,
        v.has_longitude,
        degrees_of_valid minus_180 plus_180 p.longitude
            (codes "longitude must be between -180 and 180") v.longitude_valid,
        v.has_amenities,
      )
      (ap ok (
        finish-Built (codes "SETPROP") (omega arith) (fields_of p) _ (
          written p (record { id_fits = omega arith; len_fits = short _ _ v.has_segment })
            (record { id_fits = omega arith; len_fits = short _ _ v.has_area })
            (record { id_fits = omega arith; len_fits = short _ _ v.has_property_id })
            (record { id_fits = omega arith; len_fits = short _ _ v.has_property_type })
            (record { id_fits = omega arith; len_fits = short _ _ v.has_category })
            (record { id_fits = omega arith; len_fits = amenities_short }))))

accepted :
    (json : Json) (payload : json.Value) (buf : Bytes)
    → build_set_prop json payload ≡ ok buf
    → (p : Property) × IsProperty json payload p
unfolding build_set_prop
accepted json payload buf h =
    bind_ok (present (text json payload (codes "segment")) (codes "segment")) _ buf h
      (λ segment e1 h1.
        bind_ok (present (text json payload (codes "area")) (codes "area")) _ buf h1 (λ area e2 h2.
          bind_ok (present (text json payload (codes "property_id")) (codes "property_id")) _ buf h2
            (λ property_id e3 h3.
              bind_ok (present (text json payload (codes "property_type")) (codes "property_type"))
                _ buf h3
                (λ property_type e4 h4.
                  bind_ok (present (text json payload (codes "category")) (codes "category")) _ buf
                    h4
                    (λ category e5 h5.
                      bind_ok (stars_of (number json payload (codes "stars"))) _ buf h5
                        (λ stars e6 h6.
                          bind_ok
                            (degrees_of minus_90 plus_90
                              (codes "latitude must be between -90 and 90")
                              (float json payload (codes "latitude")))
                            _ buf h6
                            (λ latitude e7 h7.
                              bind_ok
                                (degrees_of minus_180 plus_180
                                  (codes "longitude must be between -180 and 180")
                                  (float json payload (codes "longitude")))
                                _ buf h7
                                (λ longitude e8 h8.
                                  let six =
                                    stars_ok (number json payload (codes "stars")) stars e6 in
                                  let seven = degrees_ok minus_90 plus_90 _ _ latitude e7 in
                                  let eight = degrees_ok minus_180 plus_180 _ _ longitude e8 in
                                  (
                                    record {
                                      segment = segment;
                                      area = area;
                                      property_id = property_id;
                                      property_type = property_type;
                                      category = category;
                                      stars = stars;
                                      latitude = latitude;
                                      longitude = longitude;
                                      amenities =
                                          join (or_empty (texts json payload (codes "amenities")));
                                    },
                                    record {
                                      has_segment = present_ok _ _ segment e1;
                                      has_area = present_ok _ _ area e2;
                                      has_property_id = present_ok _ _ property_id e3;
                                      has_property_type = present_ok _ _ property_type e4;
                                      has_category = present_ok _ _ category e5;
                                      has_stars = six.0;
                                      stars_valid = (six.1, six.2);
                                      has_latitude = seven.0;
                                      latitude_valid = seven.1;
                                      has_longitude = eight.0;
                                      longitude_valid = eight.1;
                                      has_amenities = refl;
                                    },
                                  )))))))))

ok_injective : (r : Result Bytes) (a b : Bytes) → r ≡ ok a → r ≡ ok b → a ≡ b
ok_injective r a b h h2 = cc

-- On texts of 32-bit lengths, SETPROP is accepted exactly when the payload holds nine valid values,
-- and the request then has these values as the fields 1 to 9 of the wire format.
pub build_set_prop-IsProperty :
    (json : Json) (payload : json.Value) (buf : Bytes)
    → IsShort json payload
    → IsU32 (length (join (or_empty (texts json payload (codes "amenities")))))
    → (build_set_prop json payload ≡ ok buf) ↔ (
        (p : Property) × IsProperty json payload p
        × (buf ≡ encode_request (codes "SETPROP") (fields_of p)))
build_set_prop-IsProperty json payload buf short amenities_short = (
  (λ h.
      let (p, v) = accepted json payload buf h in
      (p, v, ok_injective _ buf _ h (complete json payload p short (fit p v) v))),
  λ (p, v, e). rw e (complete json payload p short (fit p v) v),
)
  where
    fit : (p : Property) → IsProperty json payload p → IsU32 (length p.amenities)
    fit p v = rw (← v.has_amenities) amenities_short
