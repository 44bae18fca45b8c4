-- ===== src/Processor/Availability/Format.antt =====
-- The requests of SETROOMAVL, INCROOMAVL and DECROOMAVL, against the description of their fields.
use rzgate.Prelude.{
  ltb, if◌then◌else◌, Option, none, some, ℕ, ◌≡◌, refl, ap, ◌<◌, inl, inr, [], ◌∷◌, ◌++◌, length,
  arith,
}
use rzgate.Bytes.{Bytes, codes}
use rzgate.RzError.{Result, ok, err, validation, ◌>>=◌}
use rzgate.Protocol.{Field}
use rzgate.Protocol.Reply.Encoding.{Fits}
use rzgate.Processor.Json.{Json, text, number}
use rzgate.Processor.Request.{begin, add_field, patch}
use rzgate.Processor.Request.Layout.{
  encode_request, text_field, begin-Built, add_field-Built, patch-Built,
}
use rzgate.Processor.Request.Required.{
  needed, non_empty-needed, numbered, required, IsShort, Result-cases, checked-Fits,
}
use rzgate.Processor.Availability.{amount_of, build_room_avl}

abbrev pub byte_field : ℕ → ℕ → Field
byte_field id v = record { id = id; field_type = 0x02; payload = v ∷ [] }

-- The amount, if there is one of 0 to 255.
abbrev pub amount_needed : Option ℕ → Result ℕ
amount_needed none = err (validation (codes "amount is required and must be 0-255"))
amount_needed (some a) =
    if ltb 255 a then err (validation (codes "amount is required and must be 0-255")) else ok a

amount_of-amount_needed : (o : Option ℕ) → amount_of o ≡ amount_needed o
unfolding amount_of
amount_of-amount_needed none = refl
amount_of-amount_needed (some a) = ground arith

-- What the three commands make of a payload.
abbrev pub avl_request : (json : Json) → Bytes → json.Value → Result Bytes
avl_request json cmd_name payload = do
  ss ← required json payload (codes "property_id" ∷ codes "room_type" ∷ codes "date" ∷ [])
  amount ← amount_needed (number json payload (codes "amount"))
  ok (encode_request cmd_name (numbered 1 ss ++ (byte_field 4 amount ∷ [])))

-- On texts of 32-bit lengths, the three commands make the request of the wire format with the
-- required texts as fields 1 to 3 and the amount as the byte field 4, or refuse the payload with the
-- name of the first key that holds no non-empty text, or for its amount.
pub build_room_avl-request :
    (json : Json) (cmd_name : Bytes) (payload : json.Value)
    → length cmd_name < 256
    → IsShort json payload
    → build_room_avl json cmd_name payload ≡ avl_request json cmd_name payload
unfolding build_room_avl required
build_room_avl-request json cmd_name payload named short =
    rw
      (
        non_empty-needed (text json payload (codes "property_id")) (codes "property_id"),
        non_empty-needed (text json payload (codes "room_type")) (codes "room_type"),
        non_empty-needed (text json payload (codes "date")) (codes "date"),
        amount_of-amount_needed (number json payload (codes "amount")),
      )
      (elim (Result-cases
        (needed (text json payload (codes "property_id")) (codes "property_id"))) [
          | inl (s, e) ↦
              elim (Result-cases
                (needed (text json payload (codes "room_type")) (codes "room_type"))) [
                  | inl (t, e2) ↦
                      elim (Result-cases
                        (needed (text json payload (codes "date")) (codes "date"))) [
                          | inl (u, e3) ↦
                              elim (Result-cases
                                (amount_needed (number json payload (codes "amount")))) [
                                  | inl (a, e4) ↦
                                      rw (e, e2, e3, e4)
                                        (ap ok (
                                          written s t u a
                                            (checked-Fits json payload _ s 1 short e (omega arith))
                                            (checked-Fits json payload _ t 2 short e2 (omega arith))
                                            (checked-Fits json payload _ u 3 short e3
                                              (omega arith))))
                                  | inr (x, e4) ↦ rw (e, e2, e3, e4) refl
                                ]
                          | inr (x, e3) ↦ rw (e, e2, e3) refl
                        ]
                  | inr (x, e2) ↦ rw (e, e2) refl
                ]
          | inr (x, e) ↦ rw e refl
        ])
  where
    written :
        (s t u : Bytes) (a : ℕ)
        → Fits (text_field 1 s)
        → Fits (text_field 2 t)
        → Fits (text_field 3 u)
        → patch cmd_name 4 (
            add_field
              (add_field (add_field (add_field (begin cmd_name) 1 1 s) 2 1 t) 3 1 u)
              4
              2
              (a ∷ []))
          ≡ encode_request cmd_name
              (text_field 1 s ∷ text_field 2 t ∷ text_field 3 u ∷ byte_field 4 a ∷ [])
    written s t u a hs ht hu =
        let b1 =
          add_field-Built cmd_name named [] _ (text_field 1 s) (begin-Built cmd_name named) hs
            (omega arith) in
        let b2 = add_field-Built cmd_name named _ _ (text_field 2 t) b1 ht (omega arith) in
        let b3 = add_field-Built cmd_name named _ _ (text_field 3 u) b2 hu (omega arith) in
        let b4 =
          add_field-Built cmd_name named _ _ (byte_field 4 a) b3
            (record { id_fits = omega arith; len_fits = omega arith }) (omega arith) in
        patch-Built cmd_name named _ _ b4
