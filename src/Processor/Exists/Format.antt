-- ===== src/Processor/Exists/Format.antt =====
-- The requests of PROPEXIST and PROPROOMEXIST, against the description of their required texts.
use rzgate.Prelude.{◌≡◌, [], ◌∷◌, arith}
use rzgate.Bytes.{codes}
use rzgate.Processor.Json.{Json}
use rzgate.Processor.Request.Required.{IsShort}
use rzgate.Processor.Request.Keyed.{request, one_key, two_keys}
use rzgate.Processor.Exists.{build_prop_exist, build_prop_room_exist}

-- On texts of 32-bit lengths, both commands make the request of the wire format whose fields are the
-- required texts in the order of their keys, or refuse the payload with the name of the first key
-- that holds no non-empty text.
pub build_exists-request :
    (json : Json) (payload : json.Value)
    → IsShort json payload
    → (build_prop_exist json payload
        ≡ request json (codes "PROPEXIST") (codes "property_id" ∷ []) payload)
      × (build_prop_room_exist json payload
          ≡ request json
              (codes "PROPROOMEXIST")
              (codes "property_id" ∷ codes "room_type" ∷ [])
              payload)
unfolding build_prop_exist build_prop_room_exist
build_exists-request json payload short = (
  one_key json payload short (codes "PROPEXIST") (omega arith) (codes "property_id"),
  two_keys json payload short (codes "PROPROOMEXIST") (omega arith) (codes "property_id")
      (codes "room_type"),
)
