-- ===== src/Processor/Deletes/Format.antt =====
-- The requests of the commands that delete, against the description of their required texts.
use rzgate.Prelude.{◌≡◌, [], ◌∷◌, arith}
use rzgate.Bytes.{codes}
use rzgate.Processor.Json.{Json}
use rzgate.Processor.Request.Required.{IsShort}
use rzgate.Processor.Request.Keyed.{request, one_key, two_keys, three_keys}
use rzgate.Processor.Deletes.{
  build_del_prop, build_del_segment, build_del_prop_day, build_del_prop_room, build_del_room_day,
}

-- On texts of 32-bit lengths, each of the five commands makes the request of the wire format whose
-- fields are its required texts in the order of their keys, or refuses the payload with the name of
-- the first key that holds no non-empty text.
pub build_deletes-request :
    (json : Json) (payload : json.Value)
    → IsShort json payload
    → (build_del_prop json payload
        ≡ request json (codes "DELPROP") (codes "property_id" ∷ []) payload)
      × (build_del_segment json payload
          ≡ request json (codes "DELSEGMENT") (codes "segment" ∷ []) payload)
      × (build_del_prop_day json payload
          ≡ request json (codes "DELPROPDAY") (codes "property_id" ∷ codes "date" ∷ []) payload)
      × (build_del_prop_room json payload
          ≡ request json
              (codes "DELPROPROOM")
              (codes "property_id" ∷ codes "room_type" ∷ [])
              payload)
      × (build_del_room_day json payload
          ≡ request json
              (codes "DELROOMDAY")
              (codes "property_id" ∷ codes "room_type" ∷ codes "date" ∷ [])
              payload)
unfolding build_del_prop build_del_segment build_del_prop_day build_del_prop_room build_del_room_day
build_deletes-request json payload short = (
  one_key json payload short (codes "DELPROP") (omega arith) (codes "property_id"),
  one_key json payload short (codes "DELSEGMENT") (omega arith) (codes "segment"),
  two_keys json payload short (codes "DELPROPDAY") (omega arith) (codes "property_id")
      (codes "date"),
  two_keys json payload short (codes "DELPROPROOM") (omega arith) (codes "property_id")
      (codes "room_type"),
  three_keys json payload short (codes "DELROOMDAY") (omega arith) (codes "property_id")
      (codes "room_type") (codes "date"),
)
