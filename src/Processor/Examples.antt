-- ===== src/Processor/Examples.antt =====
-- The theorems on the processors, applied to concrete payloads and responses.
use rzgate.Document.Features.{named_features}
use rzgate.Document.{success_with, member, array, string}
use rzgate.Document.Answers.{segment_object, day_document}
use rzgate.Prelude.{
  Bool, false, ◌==◌, ◌≢◌, ℕ, ◌*◌, ◌≡◌, ◌↔◌, refl, true, Bool-cases, inl, inr, some, List, [], ◌∷◌,
  ◌++◌, All, equal, length, arith, map, if◌then◌else◌,
}
use rzgate.Bytes.{Bytes, codes}
use rzgate.RzError.{ok}
use rzgate.Utf8.{is_utf8, from_utf8_lossy}
use rzgate.Flow.{next}
use rzgate.Metrics.{new}
use rzgate.Http.{json_response, status_ok}
use rzgate.Protocol.Reply.{success}
use rzgate.Protocol.Reply.Encoding.{encode_prologue}
use rzgate.Processor.Json.{texts_of}
use rzgate.Processor.Samples.{object, json, table-IsShort, table-IsShortWords}
use rzgate.F64.{f64_le}
use rzgate.Processor.Request.Layout.{encode_request}
use rzgate.Processor.Request.Keyed.{request}
use rzgate.Processor.Deletes.{
  build_del_prop, build_del_segment, build_del_prop_day, build_del_prop_room, build_del_room_day,
}
use rzgate.Processor.Deletes.Format.{build_deletes-request}
use rzgate.Processor.Availability.{build_room_avl}
use rzgate.Processor.Availability.Format.{avl_request, build_room_avl-request}
use rzgate.Processor.SetProp.{build_set_prop}
use rzgate.Processor.SetProp.Written.{Property, IsProperty, fields_of}
use rzgate.Processor.SetProp.Format.{build_set_prop-IsProperty}
use rzgate.Processor.SetRoomPkg.{build_set_room_pkg}
use rzgate.Processor.SetRoomPkg.Format.{pkg_request, build_set_room_pkg-request}
use rzgate.Protocol.Response.{sent_ok}
use rzgate.Helper.PropertyId.{bytes_to_property_id}
use rzgate.Processor.RoomDay.{Day, decode_get_prop_room_day_response}
use rzgate.Processor.RoomDay.Listed.{day_payload, IsDay, decode_get_prop_room_day_response-day}
use rzgate.Processor.DateList.{decode_prop_room_date_list_response}
use rzgate.Processor.SearchProp.{build_search_prop, decode_search_prop_response}
use rzgate.Processor.SearchProp.Format.{search_prop_request, build_search_prop-request}
use rzgate.Processor.SearchProp.Listed.{answer_of, decode_search_prop_response-ids}
use rzgate.Processor.DateList.Order.{IsSorted, count}
use rzgate.Processor.DateList.Listed.{filled, decode_prop_room_date_list_response-IsSorted}
use rzgate.Processor.Codecs.{decode_get_codecs_response}
use rzgate.Processor.Codecs.Split.{trim, IsName}
use rzgate.Processor.Codecs.Listed.{codecs_payload, decode_get_codecs_response-names}
use rzgate.Processor.Segments.{decode_get_segments_response}
use rzgate.Processor.Segments.Pairs.{pair_payload}
use rzgate.Processor.Segments.Listed.{decode_get_segments_response-pairs}
use rzgate.Processor.RoomList.{decode_prop_room_list_response}
use rzgate.Processor.RoomList.Listed.{payload_of, decode_prop_room_list_response-names}

abbrev property : Property
property = record {
  segment = codes "eu";
  area = codes "north";
  property_id = codes "p1";
  property_type = codes "hotel";
  category = codes "city";
  stars = 4;
  latitude = 0x4049_0000_0000_0000;
  longitude = 0xC049_0000_0000_0000;
  amenities = codes "wifi,pool";
}

abbrev set_prop_buf : Bytes
set_prop_buf = encode_request (codes "SETPROP") (fields_of property)

build_set_prop_example : (build_set_prop json object ≡ ok set_prop_buf) ↔ (
    (p : Property) × IsProperty json object p
    × (set_prop_buf ≡ encode_request (codes "SETPROP") (fields_of p)))
unfolding equal texts_of
build_set_prop_example =
    build_set_prop-IsProperty json object set_prop_buf table-IsShort (omega arith)

-- The left side holds: the payload is accepted.
set_prop_accepted : build_set_prop json object ≡ ok set_prop_buf
unfolding equal texts_of f64_le
set_prop_accepted = build_set_prop_example.1 (
  property,
  record {
    has_segment = refl;
    has_area = refl;
    has_property_id = refl;
    has_property_type = refl;
    has_category = refl;
    has_stars = refl;
    stars_valid = (omega arith, omega arith);
    has_latitude = refl;
    latitude_valid = refl;
    has_longitude = refl;
    longitude_valid = refl;
    has_amenities = refl;
  },
  refl,
)

build_room_avl_example :
    build_room_avl json (codes "SETROOMAVL") object ≡ avl_request json (codes "SETROOMAVL") object
build_room_avl_example =
    build_room_avl-request json (codes "SETROOMAVL") object (omega arith) table-IsShort

build_set_room_pkg_example : build_set_room_pkg json object ≡ pkg_request json object
build_set_room_pkg_example = build_set_room_pkg-request json object table-IsShort table-IsShortWords

build_search_prop_example : build_search_prop json object ≡ search_prop_request json object
build_search_prop_example = build_search_prop-request json object table-IsShort table-IsShortWords

build_deletes_example :
    (build_del_prop json object ≡ request json (codes "DELPROP") (codes "property_id" ∷ []) object)
    × (build_del_segment json object
        ≡ request json (codes "DELSEGMENT") (codes "segment" ∷ []) object)
    × (build_del_prop_day json object
        ≡ request json (codes "DELPROPDAY") (codes "property_id" ∷ codes "date" ∷ []) object)
    × (build_del_prop_room json object
        ≡ request json (codes "DELPROPROOM") (codes "property_id" ∷ codes "room_type" ∷ []) object)
    × (build_del_room_day json object
        ≡ request json
            (codes "DELROOMDAY")
            (codes "property_id" ∷ codes "room_type" ∷ codes "date" ∷ [])
            object)
build_deletes_example = build_deletes-request json object table-IsShort

abbrev rooms : List Bytes
rooms = codes "single" ∷ codes "double" ∷ []

prop_room_list_example :
    decode_prop_room_list_response new (payload_of (encode_prologue success 2) 1 rooms (7 ∷ []))
    ≡ next (
      json_response status_ok (
          success_with
            (member (codes "room_types") (array (map string (map from_utf8_lossy rooms))) ∷ [])),
      new,
    )
prop_room_list_example =
    decode_prop_room_list_response-names new rooms (7 ∷ []) (λ e. cc) (omega arith)
      (omega arith, (omega arith, tt)) (omega arith)

abbrev regions : List (Bytes × ℕ)
regions = (codes "eu", 12) ∷ (codes "us", 70000) ∷ []

segments_example :
    decode_get_segments_response new
      (pair_payload (encode_prologue success (2 * length regions)) 1 regions (1 ∷ []))
    ≡ next (
        sent_ok new
          (success_with (member (codes "segments") (array (map segment_object regions)) ∷ [])))
segments_example =
    decode_get_segments_response-pairs new regions (1 ∷ []) (λ e. cc) (omega arith)
      ((omega arith, omega arith), ((omega arith, omega arith), tt)) (omega arith)

abbrev days : List Bytes
days = codes "2026-02-01" ∷ [] ∷ codes "2026-01-31" ∷ []

date_list_example :
    (sorted : List Bytes) × (decode_prop_room_date_list_response new
        (payload_of (encode_prologue success 3) 1 days [])
      ≡ next (sent_ok new (success_with (member (codes "dates") (array (map string sorted)) ∷ []))))
    × IsSorted sorted
    × ((d : Bytes) → count d sorted ≡ count d (filled days))
date_list_example =
    decode_prop_room_date_list_response-IsSorted new days [] (λ e. cc) (omega arith)
      (omega arith, (omega arith, (omega arith, tt))) (omega arith)

abbrev feature_names : List Bytes
feature_names = codes "breakfast" ∷ codes "free wifi" ∷ []

abbrev has_comma : Bytes → Bool
has_comma [] = false
has_comma (b ∷ bs) = if b == b',' then true else has_comma bs

no_comma_lem : (s : Bytes) → has_comma s ≡ false → All (λ b. b ≢ b',') s
no_comma_lem [] h = tt
no_comma_lem (b ∷ bs) h = elim (Bool-cases (b == b',')) [
  | inl comma ↦ absurd (clash (rw comma at h))
  | inr other ↦ ((λ e. ground arith), no_comma_lem bs (rw other at h))
]
  where
    clash : true ≡ false → ⊥
    clash e = cc

named_breakfast : IsName (codes "breakfast")
unfolding trim
named_breakfast = record {
  filled = λ e. cc;
  no_comma = no_comma_lem (codes "breakfast") refl;
  bare = refl;
}

named_wifi : IsName (codes "free wifi")
unfolding trim
named_wifi = record {
  filled = λ e. cc;
  no_comma = no_comma_lem (codes "free wifi") refl;
  bare = refl;
}

codecs_example :
    decode_get_codecs_response (codecs_payload feature_names (9 ∷ []))
    ≡ next (ok (record { rate_features = feature_names }))
unfolding is_utf8 trim
codecs_example =
    decode_get_codecs_response-names (codes "breakfast") (codes "free wifi" ∷ []) (9 ∷ [])
      (named_breakfast, (named_wifi, tt)) refl (omega arith)

abbrev day : Day
day = record {
  property_id = codes "hotel_" ++ (0xF0 ∷ codes "42" ++ (0 ∷ []));
  date = codes "2026-01-31";
  availability = 3;
  final_price = 129;
  rate_feature_mask = 2;
}

day-IsDay : IsDay day
unfolding is_utf8
day-IsDay = record {
  id_short = omega arith;
  date_short = omega arith;
  date_utf8 = refl;
  price_fits = omega arith;
  mask_fits = omega arith;
}

room_day_example :
    decode_get_prop_room_day_response (λ u. u) (some feature_names) new (day_payload day)
    ≡ next (
        sent_ok new (
          day_document
            (bytes_to_property_id (λ u. u) day.property_id)
            day.date
            3
            129
            (named_features 2 feature_names)))
room_day_example = decode_get_prop_room_day_response-day day day-IsDay (λ u. u) feature_names new

search_prop_example :
    decode_search_prop_response
      (λ u. u)
      new
      (payload_of (encode_prologue success 2) 1 rooms (7 ∷ []))
    ≡ next (answer_of (λ u. u) new (codes "single") (codes "double" ∷ []))
search_prop_example =
    decode_search_prop_response-ids (λ u. u) new (codes "single") (codes "double" ∷ []) (7 ∷ [])
      (omega arith) (omega arith, (omega arith, tt))
