-- ===== src/Processor/SetRoomPkg/Format.antt =====
-- The request of SETROOMPKG, against the description of its fields.
use rzgate.Prelude.{
  ℕ, ◌<◌, ◌≡◌, refl, ap, inl, inr, [], ◌∷◌, List, ◌++◌, length, All, arith, Option, some, none,
}
use rzgate.Bytes.{Bytes, codes}
use rzgate.RzError.{Result, ok, ◌>>=◌}
use rzgate.Protocol.Reply.Encoding.{Fits}
use rzgate.Processor.Json.{Json, text, number, texts}
use rzgate.Processor.Request.{begin, add_field, finish}
use rzgate.Processor.Request.Layout.{encode_request, text_field, begin-Built, add_field-Built}
use rzgate.Processor.Request.Required.{
  needed, non_empty-needed, numbered, required, IsShort, Result-cases, checked-Fits,
}
use rzgate.Processor.Request.Filters.{
  Slot, SlotFits, Kind, byte_in, low_u32, words, byte_between, u32_of, add_all, fields_of, slots_of,
  filters, IsShortWords, rate_feature_of-comma_words, slots_of-SlotFits, finish-add_all,
}
use rzgate.Processor.SetRoomPkg.{availability_of, final_price_of, build_set_room_pkg}

abbrev cmd : Bytes
cmd = codes "SETROOMPKG"

pub availability_of-byte_between : (o : Option ℕ) → availability_of o ≡ byte_between 0 255 o
unfolding availability_of
availability_of-byte_between none = refl
availability_of-byte_between (some v) = ground arith

pub final_price_of-u32_of : (o : Option ℕ) → final_price_of o ≡ u32_of o
unfolding final_price_of
final_price_of-u32_of none = refl
final_price_of-u32_of (some v) = refl

-- The optional fields that follow the three texts.
abbrev pub options : List (ℕ × Kind × Bytes)
options =
    (4, byte_in 0 255, codes "availability")
    ∷ (5, low_u32, codes "final_price")
    ∷ (6, words, codes "rate_features")
    ∷ []

module _ (json : Json) where
  -- What the command makes of a payload.
  abbrev pub pkg_request : json.Value → Result Bytes
  pkg_request payload = do
    ss ← required json payload (codes "property_id" ∷ codes "room_type" ∷ codes "date" ∷ [])
    ok (encode_request (codes "SETROOMPKG") (numbered 1 ss ++ filters json payload options))

written :
    (s t u : Bytes) (slots : List Slot)
    → Fits (text_field 1 s)
    → Fits (text_field 2 t)
    → Fits (text_field 3 u)
    → All SlotFits slots
    → length slots < 100
    → finish cmd (add_all (add_field (add_field (add_field (begin cmd) 1 1 s) 2 1 t) 3 1 u) slots)
      ≡ encode_request cmd (numbered 1 (s ∷ t ∷ u ∷ []) ++ fields_of slots)
written s t u slots hs ht hu fits few =
    let b1 =
      add_field-Built cmd named [] _ (text_field 1 s) (begin-Built cmd named) hs (omega arith) in
    let b2 = add_field-Built cmd named _ _ (text_field 2 t) b1 ht (omega arith) in
    let b3 = add_field-Built cmd named _ _ (text_field 3 u) b2 hu (omega arith) in
    finish-add_all cmd _ _ slots named b3 fits (omega arith)
  where
    named : length cmd < 256
    named = omega arith

-- On texts of 32-bit lengths, SETROOMPKG makes the request of the wire format with the required
-- texts as fields 1 to 3, followed by exactly those of the fields 4 to 6 that have a value, counted
-- in the field count; or it refuses the payload with the name of the first key that holds no
-- non-empty text.
pub build_set_room_pkg-request :
    (json : Json) (payload : json.Value)
    → IsShort json payload
    → IsShortWords json payload
    → build_set_room_pkg json payload ≡ pkg_request json payload
unfolding build_set_room_pkg required
build_set_room_pkg-request json payload short short_words =
    rw
      (
        availability_of-byte_between (number json payload (codes "availability")),
        final_price_of-u32_of (number json payload (codes "final_price")),
        rate_feature_of-comma_words (texts json payload (codes "rate_features")),
        non_empty-needed (text json payload (codes "property_id")) (codes "property_id"),
        non_empty-needed (text json payload (codes "room_type")) (codes "room_type"),
        non_empty-needed (text json payload (codes "date")) (codes "date"),
      )
      (elim (Result-cases
        (needed (text json payload (codes "property_id")) (codes "property_id"))) [
          | inl (s, e) ↦
              elim (Result-cases
                (needed (text json payload (codes "room_type")) (codes "room_type"))) [
                  | inl (t, e2) ↦
                      elim (Result-cases
                        (needed (text json payload (codes "date")) (codes "date"))) [
                          | inl (u, e3) ↦
                              rw (e, e2, e3)
                                (ap ok (
                                  written s t u (slots_of json payload options)
                                    (checked-Fits json payload _ s 1 short e (omega arith))
                                    (checked-Fits json payload _ t 2 short e2 (omega arith))
                                    (checked-Fits json payload _ u 3 short e3 (omega arith))
                                    (slots_of-SlotFits json payload short short_words options
                                      (omega arith))
                                    (omega arith)))
                          | inr (x, e3) ↦ rw (e, e2, e3) refl
                        ]
                  | inr (x, e2) ↦ rw (e, e2) refl
                ]
          | inr (x, e) ↦ rw e refl
        ])
