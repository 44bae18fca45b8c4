-- ===== src/Processor/SearchProp/Format.antt =====
-- The request of SEARCHPROP, against the description of its fields.
use rzgate.Prelude.{
  ℕ, ◌<◌, ◌≡◌, refl, ap, ◌∙◌, Option-cases, inl, inr, [], ◌∷◌, List, length, arith, Option, some,
  none,
}
use rzgate.Bytes.{Bytes, codes}
use rzgate.F64.{minus_90, plus_90, minus_180, plus_180}
use rzgate.RzError.{err, validation, Result, ok, ◌>>=◌}
use rzgate.Processor.Json.{Json, texts, text, number, float}
use rzgate.Processor.Request.{begin, add_field, finish, present}
use rzgate.Processor.Request.Layout.{encode_request, text_field, begin-Built, add_field-Built}
use rzgate.Processor.Request.Required.{IsShort}
use rzgate.Processor.Request.Filters.{
  Kind, word, byte_in, whole_u64, degrees_in, words, byte_between, u64_of, f64_between, add_all,
  slots_of, filters, IsShortWords, rate_feature_of-comma_words, slots_of-SlotFits, finish-add_all,
}
use rzgate.Processor.SearchProp.{
  stars_filter, degrees_filter, limit_filter, search_request, build_search_prop,
}

pub limit_filter-u64_of : (o : Option ℕ) → limit_filter o ≡ u64_of o
unfolding limit_filter
limit_filter-u64_of none = refl
limit_filter-u64_of (some n) = refl

stars_filter-byte_between : (o : Option ℕ) → stars_filter o ≡ byte_between 1 5 o
unfolding stars_filter
stars_filter-byte_between none = refl
stars_filter-byte_between (some n) = refl

degrees_filter-f64_between :
    (lo hi : ℕ) (o : Option ℕ) → degrees_filter lo hi o ≡ f64_between lo hi o
unfolding degrees_filter
degrees_filter-f64_between lo hi none = refl
degrees_filter-f64_between lo hi (some x) = refl

abbrev cmd : Bytes
cmd = codes "SEARCHPROP"

-- The filters, in the order of their fields.
abbrev pub search_filters : List (ℕ × Kind × Bytes)
search_filters =
    (2, word, codes "area")
    ∷ (3, word, codes "property_type")
    ∷ (4, byte_in 1 5, codes "stars")
    ∷ (5, word, codes "category")
    ∷ (6, words, codes "amenities")
    ∷ (7, degrees_in minus_180 plus_180, codes "longitude")
    ∷ (8, degrees_in minus_90 plus_90, codes "latitude")
    ∷ (9, whole_u64, codes "limit")
    ∷ []

-- The segment may be empty, but not missing.
abbrev pub segment_needed : Option Bytes → Result Bytes
segment_needed none = err (validation (codes "segment is required"))
segment_needed (some segment) = ok segment

module _ (json : Json) where
  -- What the command makes of a payload.
  abbrev pub search_prop_request : json.Value → Result Bytes
  search_prop_request payload = do
    segment ← segment_needed (text json payload (codes "segment"))
    ok (
        encode_request (codes "SEARCHPROP")
          (text_field 1 segment ∷ filters json payload search_filters))

search_request-add_all :
    (json : Json) (payload : json.Value) (segment : Bytes)
    → search_request json payload (ok segment)
      ≡ ok (
          finish cmd
            (add_all (add_field (begin cmd) 1 1 segment) (slots_of json payload search_filters)))
unfolding search_request
search_request-add_all json payload segment = rw (
  stars_filter-byte_between (number json payload (codes "stars")),
  rate_feature_of-comma_words (texts json payload (codes "amenities")),
  degrees_filter-f64_between minus_180 plus_180 (float json payload (codes "longitude")),
  degrees_filter-f64_between minus_90 plus_90 (float json payload (codes "latitude")),
  limit_filter-u64_of (number json payload (codes "limit")),
)

-- On texts of 32-bit lengths, SEARCHPROP makes the request of the wire format with the segment as
-- field 1, followed by exactly those of the fields 2 to 9 whose key holds a value of the field's kind and
-- range, counted in the field count; or it refuses the payload because it has no segment.
pub build_search_prop-request :
    (json : Json) (payload : json.Value)
    → IsShort json payload
    → IsShortWords json payload
    → build_search_prop json payload ≡ search_prop_request json payload
unfolding build_search_prop search_request present
build_search_prop-request json payload short short_words =
    elim (Option-cases (text json payload (codes "segment"))) [
      | inl e ↦ rw e refl
      | inr (s, e) ↦ rw e (
          search_request-add_all json payload s
          ∙ ap ok (
              finish-add_all cmd (text_field 1 s ∷ []) _ (slots_of json payload search_filters)
                named
                (add_field-Built cmd named [] _ (text_field 1 s) (begin-Built cmd named)
                  (record { id_fits = omega arith; len_fits = short _ s e }) (omega arith))
                (slots_of-SlotFits json payload short short_words search_filters (omega arith))
                (omega arith)))
    ]
  where
    named : length cmd < 256
    named = omega arith
