-- ===== src/Processor/SearchAvail/Request/Format.antt =====
-- The request of SEARCHAVAIL, against the description of its fields.
use rzgate.Prelude.{
  ℕ, ◌<◌, ◌≡◌, refl, ap, ◌∙◌, inl, inr, [], ◌∷◌, List, ◌++◌, length, arith, Option, some, none,
}
use rzgate.Bytes.{Bytes, codes}
use rzgate.RzError.{Result, ok, ◌>>=◌}
use rzgate.Protocol.Reply.Encoding.{Fits}
use rzgate.Processor.Json.{Json, text, number, float, texts}
use rzgate.Processor.Request.{Builder, begin, add_field, finish}
use rzgate.Processor.Request.Layout.{encode_request, text_field, begin-Built, add_field-Built}
use rzgate.Processor.Request.Required.{
  needed, non_empty-needed, numbered, required, IsShort, Result-cases, checked-Fits,
}
use rzgate.Processor.Request.Filters.{
  Kind, word, byte_in, low_u32, whole_u64, degrees, words, byte_between, u64_of, add_all, slots_of,
  filters, IsShortWords, rate_feature_of-comma_words, slots_of-SlotFits, finish-add_all,
}
use rzgate.Processor.SetRoomPkg.Format.{final_price_of-u32_of}
use rzgate.Processor.SearchProp.Format.{limit_filter-u64_of}
use rzgate.Processor.SearchAvail.Request.{
  byte_filter, degrees_bytes, add_filters, build_search_avail,
}

byte_filter-byte_between : (o : Option ℕ) → byte_filter o ≡ byte_between 0 255 o
unfolding byte_filter
byte_filter-byte_between none = refl
byte_filter-byte_between (some n) = ground arith

degrees_bytes-u64_of : (o : Option ℕ) → degrees_bytes o ≡ u64_of o
unfolding degrees_bytes
degrees_bytes-u64_of none = refl
degrees_bytes-u64_of (some x) = refl

abbrev cmd : Bytes
cmd = codes "SEARCHAVAIL"

-- The filters, in the order of their fields.
abbrev pub avail_filters : List (ℕ × Kind × Bytes)
avail_filters =
    (3, word, codes "area")
    ∷ (4, word, codes "property_id")
    ∷ (5, word, codes "type")
    ∷ (6, byte_in 0 255, codes "stars")
    ∷ (7, word, codes "category")
    ∷ (8, words, codes "amenities")
    ∷ (9, degrees, codes "longitude")
    ∷ (10, degrees, codes "latitude")
    ∷ (11, words, codes "date")
    ∷ (12, byte_in 0 255, codes "availability")
    ∷ (13, low_u32, codes "final_price")
    ∷ (14, words, codes "rate_features")
    ∷ (15, whole_u64, codes "limit")
    ∷ []

module _ (json : Json) where
  -- What the command makes of a payload.
  abbrev pub search_avail_request : json.Value → Result Bytes
  search_avail_request payload = do
    ss ← required json payload (codes "segment" ∷ codes "room_type" ∷ [])
    ok (encode_request (codes "SEARCHAVAIL") (numbered 1 ss ++ filters json payload avail_filters))

add_filters-add_all :
    (json : Json) (payload : json.Value) (b : Builder)
    → add_filters json payload b ≡ add_all b (slots_of json payload avail_filters)
unfolding add_filters
add_filters-add_all json payload b = rw (
  byte_filter-byte_between (number json payload (codes "stars")),
  rate_feature_of-comma_words (texts json payload (codes "amenities")),
  rate_feature_of-comma_words (texts json payload (codes "date")),
  rate_feature_of-comma_words (texts json payload (codes "rate_features")),
  degrees_bytes-u64_of (float json payload (codes "longitude")),
  degrees_bytes-u64_of (float json payload (codes "latitude")),
  byte_filter-byte_between (number json payload (codes "availability")),
  final_price_of-u32_of (number json payload (codes "final_price")),
  limit_filter-u64_of (number json payload (codes "limit")),
)

-- On texts of 32-bit lengths, SEARCHAVAIL makes the request of the wire format with the required segment and
-- room type as fields 1 and 2, followed by exactly those of the fields 3 to 15 whose key holds a value of the
-- field's kind, counted in the field count; or it refuses the payload with the name of the first of the two
-- required keys that holds no non-empty text.
pub build_search_avail-request :
    (json : Json) (payload : json.Value)
    → IsShort json payload
    → IsShortWords json payload
    → build_search_avail json payload ≡ search_avail_request json payload
unfolding build_search_avail required
build_search_avail-request json payload short short_words =
    rw
      (
        non_empty-needed (text json payload (codes "segment")) (codes "segment"),
        non_empty-needed (text json payload (codes "room_type")) (codes "room_type"),
      )
      (elim (Result-cases (needed (text json payload (codes "segment")) (codes "segment"))) [
        | inl (s, e) ↦
            elim (Result-cases
              (needed (text json payload (codes "room_type")) (codes "room_type"))) [
                | inl (t, e2) ↦
                    rw (e, e2)
                      (ap (λ b. ok (finish cmd b)) (add_filters-add_all json payload _)
                        ∙ ap ok (
                            written s t (checked-Fits json payload _ s 1 short e (omega arith))
                              (checked-Fits json payload _ t 2 short e2 (omega arith))))
                | inr (x, e2) ↦ rw (e, e2) refl
              ]
        | inr (x, e) ↦ rw e refl
      ])
  where
    named : length cmd < 256
    named = omega arith

    written :
        (s t : Bytes)
        → Fits (text_field 1 s)
        → Fits (text_field 2 t)
        → finish cmd (
            add_all
              (add_field (add_field (begin cmd) 1 1 s) 2 1 t)
              (slots_of json payload avail_filters))
          ≡ encode_request cmd (numbered 1 (s ∷ t ∷ []) ++ filters json payload avail_filters)
    written s t hs ht =
        finish-add_all cmd _ _ (slots_of json payload avail_filters) named
          (add_field-Built cmd named _ _ (text_field 2 t)
            (add_field-Built cmd named [] _ (text_field 1 s) (begin-Built cmd named) hs
              (omega arith))
            ht (omega arith))
          (slots_of-SlotFits json payload short short_words avail_filters (omega arith))
          (omega arith)
