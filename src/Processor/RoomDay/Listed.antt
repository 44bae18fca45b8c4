-- ===== src/Processor/RoomDay/Listed.antt =====
-- What the decoder of GETPROPROOMDAY answers to a day in the wire format.
use rzgate.Document.Features.{named_features, collect-named_features}
use rzgate.Document.Answers.{day_document, day_json-day_document}
use rzgate.Prelude.{
  ◌∙◌, ap, ℕ, ◌+◌, ◌≡◌, refl, ap, true, false, ltb, ==_refl, List, [], ◌∷◌, ◌++◌, append_assoc,
  append-nil, length, length-append, arith, equal_refl, some,
}
use rzgate.Bytes.{Bytes, IsU32, u32_le}
use rzgate.Utf8.{is_utf8, from_utf8}
use rzgate.Flow.{next, index}
use rzgate.Flow.Append.{read_u32-u32_le}
use rzgate.Metrics.{Metrics}
use rzgate.Bitmask.{get_rate_features}
use rzgate.Protocol.{Field}
use rzgate.Protocol.Reply.{success}
use rzgate.Protocol.Reply.Encoding.{
  encode_prologue, encode_field, encode_fields, Fits, length-encode_prologue, length-encode_field,
  read_prologue-encode_prologue, read_head-encode_field, slice-encode_field,
}
use rzgate.Protocol.Response.{sent_ok}
use rzgate.Helper.PropertyId.{bytes_to_property_id}
use rzgate.Helper.RateFeatures.{collect, bitmask_to_rate_feature_strings}
use rzgate.Processor.RoomDay.{
  Day, read_field, read_day, date_text, day_json, decode_get_prop_room_day_response,
}

abbrev pub day_fields : Day → List Field
day_fields d =
    record { id = 1; field_type = 0x01; payload = d.property_id }
    ∷ record { id = 2; field_type = 0x01; payload = d.date }
    ∷ record { id = 3; field_type = 0x02; payload = d.availability ∷ [] }
    ∷ record { id = 4; field_type = 0x03; payload = u32_le d.final_price }
    ∷ record { id = 5; field_type = 0x03; payload = u32_le d.rate_feature_mask }
    ∷ []

abbrev pub day_payload : Day → Bytes
day_payload d = encode_prologue success 5 ++ encode_fields (day_fields d)

read_field-encode_field :
    (bytes pre : Bytes) (f : Field) (rest : Bytes) (offset : ℕ)
    → bytes ≡ pre ++ (encode_field f ++ rest)
    → offset ≡ length pre
    → Fits f
    → read_field bytes offset ≡ next (f, offset + 7 + length f.payload)
unfolding read_field
read_field-encode_field bytes pre f rest offset shape at fits = rw (
  shape,
  long,
  read_head-encode_field pre f rest fits offset at,
  inside,
  slice-encode_field pre f rest fits offset at,
)
  where
    total :
        length (pre ++ (encode_field f ++ rest)) ≡ length pre + (7 + length f.payload + length rest)
    total = omega (
      arith,
      length-append pre (encode_field f ++ rest),
      length-append (encode_field f) rest,
      length-encode_field f,
    )

    long : ltb (length (pre ++ (encode_field f ++ rest))) (offset + 7) ≡ false
    long = ground (arith, total)

    inside : ltb (length (pre ++ (encode_field f ++ rest))) (offset + 7 + length f.payload) ≡ false
    inside = ground (arith, total)

-- The text of a day is valid, and its numbers and lengths fit the wire format.
pub record IsDay (d : Day) : Type 0 where
  pub id_short : IsU32 (length d.property_id)
  pub date_short : IsU32 (length d.date)
  pub date_utf8 : is_utf8 d.date ≡ true
  pub price_fits : IsU32 d.final_price
  pub mask_fits : IsU32 d.rate_feature_mask

module _ (d : Day) (is_day : IsDay d) where
  abbrev f1 : Field
  f1 = record { id = 1; field_type = 0x01; payload = d.property_id }

  abbrev f2 : Field
  f2 = record { id = 2; field_type = 0x01; payload = d.date }

  abbrev f3 : Field
  f3 = record { id = 3; field_type = 0x02; payload = d.availability ∷ [] }

  abbrev f4 : Field
  f4 = record { id = 4; field_type = 0x03; payload = u32_le d.final_price }

  abbrev f5 : Field
  f5 = record { id = 5; field_type = 0x03; payload = u32_le d.rate_feature_mask }

  abbrev pre1 : Bytes
  pre1 = encode_prologue success 5

  abbrev pre2 : Bytes
  pre2 = pre1 ++ encode_field f1

  abbrev pre3 : Bytes
  pre3 = pre2 ++ encode_field f2

  abbrev pre4 : Bytes
  pre4 = pre3 ++ encode_field f3

  abbrev pre5 : Bytes
  pre5 = pre4 ++ encode_field f4

  length1 : 10 ≡ length pre1
  length1 = omega (arith, length-encode_prologue success 5)

  length2 : 17 + length d.property_id ≡ length pre2
  length2 = omega (arith, length1, length-append pre1 (encode_field f1), length-encode_field f1)

  length3 : 17 + length d.property_id + 7 + length d.date ≡ length pre3
  length3 = omega (arith, length2, length-append pre2 (encode_field f2), length-encode_field f2)

  length4 : 17 + length d.property_id + 7 + length d.date + 7 + 1 ≡ length pre4
  length4 = omega (arith, length3, length-append pre3 (encode_field f3), length-encode_field f3)

  length5 : 17 + length d.property_id + 7 + length d.date + 7 + 1 + 7 + 4 ≡ length pre5
  length5 = omega (arith, length4, length-append pre4 (encode_field f4), length-encode_field f4)

  length6 :
      17 + length d.property_id + 7 + length d.date + 7 + 1 + 7 + 4 + 7 + 4 ≡ length (day_payload d)
  length6 = omega (
    arith,
    length5,
    length-append pre5 (encode_field f5),
    length-encode_field f5,
    ap (λ (bytes : Bytes). length bytes) whole,
  )
    where
      whole : day_payload d ≡ pre5 ++ encode_field f5
      whole = simp (append_assoc, append-nil)

  shape2 :
      day_payload d
      ≡ pre2
        ++ (encode_field f2 ++ (encode_field f3 ++ (encode_field f4 ++ (encode_field f5 ++ []))))
  shape2 = simp append_assoc

  shape3 : day_payload d ≡ pre3 ++ (encode_field f3 ++ (encode_field f4 ++ (encode_field f5 ++ [])))
  shape3 = simp append_assoc

  shape4 : day_payload d ≡ pre4 ++ (encode_field f4 ++ (encode_field f5 ++ []))
  shape4 = simp append_assoc

  shape5 : day_payload d ≡ pre5 ++ (encode_field f5 ++ [])
  shape5 = simp append_assoc

  read_day-day_payload : read_day (day_payload d) 10 ≡ next d
  unfolding read_day index
  read_day-day_payload = rw (
    read_field-encode_field (day_payload d) pre1 f1 _ 10 refl length1
        (record { id_fits = omega arith; len_fits = is_day.id_short }),
    read_field-encode_field (day_payload d) pre2 f2 _ _ shape2 length2
        (record { id_fits = omega arith; len_fits = is_day.date_short }),
    read_field-encode_field (day_payload d) pre3 f3 _ _ shape3 length3
        (record { id_fits = omega arith; len_fits = omega arith }),
    read_field-encode_field (day_payload d) pre4 f4 _ _ shape4 length4
        (record { id_fits = omega arith; len_fits = omega arith }),
    read_u32-u32_le d.final_price [] is_day.price_fits,
    read_field-encode_field (day_payload d) pre5 f5 _ _ shape5 length5
        (record { id_fits = omega arith; len_fits = omega arith }),
    read_u32-u32_le d.rate_feature_mask [] is_day.mask_fits,
    ← length6,
    ==_refl (17 + length d.property_id + 7 + length d.date + 7 + 1 + 7 + 4 + 7 + 4),
  )

  date_text-utf8 : date_text d.date ≡ d.date
  unfolding date_text from_utf8
  date_text-utf8 = rw (date_text, is_day.date_utf8)

  -- A SUCCESS response that holds a day in the wire format, and nothing behind it, is answered by the
  -- JSON object of its values, once the names of the rate features are known: the text of the property's id, the
  -- date, the availability and the price in decimal, and the names of the features in the mask. The date is
  -- valid UTF-8, and lengths and numbers have 32 bits.
  pub decode_get_prop_room_day_response-day :
      (uuid_to_string : Bytes → Bytes) (features : List Bytes) (m : Metrics)
      → decode_get_prop_room_day_response uuid_to_string (some features) m (day_payload d)
        ≡ next (
            sent_ok m (
              day_document
                (bytes_to_property_id uuid_to_string d.property_id)
                d.date
                d.availability
                d.final_price
                (named_features d.rate_feature_mask features)))
  unfolding decode_get_prop_room_day_response bitmask_to_rate_feature_strings get_rate_features
  decode_get_prop_room_day_response-day uuid_to_string features m =
      (rw
        (
          read_prologue-encode_prologue success 5 (encode_fields (day_fields d)) (omega arith),
          equal_refl success,
          read_day-day_payload,
        )
        (ap
          (λ t. next (
            sent_ok m (
              day_json (bytes_to_property_id uuid_to_string d.property_id) t d.availability
                d.final_price (collect d.rate_feature_mask 0 24 features))))
          date_text-utf8))
      ∙ ap (λ json. next (sent_ok m json))
          (day_json-day_document (bytes_to_property_id uuid_to_string d.property_id) d.date
            d.availability d.final_price (collect d.rate_feature_mask 0 24 features))
      ∙ ap
          (λ names. next (
            sent_ok m (
              day_document (bytes_to_property_id uuid_to_string d.property_id) d.date d.availability
                d.final_price names)))
          (collect-named_features d.rate_feature_mask features)
