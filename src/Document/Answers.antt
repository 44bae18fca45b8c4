-- ===== src/Document/Answers.antt =====
-- The bytes that the processors write are the documents of the README.
use rzgate.Prelude.{ℕ, ◌≡◌, refl, sym, ap, ◌∙◌, List, [], ◌∷◌, ◌++◌, map, append_assoc, append-nil}
use rzgate.Bytes.{Bytes, codes}
use rzgate.Decimal.{decimal}
use rzgate.RzError.{RzError, validation, roomzin_unreachable, timeout, internal, network}
use rzgate.Metrics.{Metrics, inc_client_errors}
use rzgate.Http.{json_response, bad_request, internal_server_error}
use rzgate.Protocol.Failure.{build_error_message, error_response, invalid_response}
use rzgate.Render.{comma_separated, quoted_list}
use rzgate.Document.{
  after_commas, joined, string, array, member, object, success_with, error_document,
}
use rzgate.Protocol.Response.{error_json, value_json}
use rzgate.Processor.RoomList.{names_json}
use rzgate.Processor.DateList.{dates_json}
use rzgate.Processor.Segments.{segment_json, segments_json}
use rzgate.Processor.RoomDay.{day_json}

comma_separated-after_commas :
    (x : Bytes) (xs : List Bytes) → comma_separated (x ∷ xs) ≡ x ++ after_commas xs
unfolding comma_separated
comma_separated-after_commas x [] = sym (append-nil x)
comma_separated-after_commas x (y ∷ ys) =
    ap (λ t. x ++ (b',' ∷ t)) (comma_separated-after_commas y ys)

comma_separated-joined : (xs : List Bytes) → comma_separated xs ≡ joined xs
unfolding comma_separated
comma_separated-joined [] = refl
comma_separated-joined (x ∷ xs) = comma_separated-after_commas x xs

-- One member that is a list of texts, between what is written before and behind it.
quoted_list-joined : (names : List Bytes) → quoted_list names ≡ joined (map string names)
quoted_list-joined names = comma_separated-joined (map string names)

pub names_json-success_with :
    (names : List Bytes)
    → names_json names ≡ success_with (member (codes "room_types") (array (map string names)) ∷ [])
names_json-success_with names = rw (quoted_list-joined names) (simp append_assoc)

pub dates_json-success_with :
    (dates : List Bytes)
    → dates_json dates ≡ success_with (member (codes "dates") (array (map string dates)) ∷ [])
dates_json-success_with dates = rw (quoted_list-joined dates) (simp append_assoc)

pub error_json-error_document : (msg : Bytes) → error_json msg ≡ error_document msg
unfolding error_json
error_json-error_document msg = simp append_assoc

pub value_json-success_with :
    (name value : Bytes) → value_json name value ≡ success_with (member name value ∷ [])
unfolding value_json
value_json-success_with name value = simp append_assoc

-- A segment of the list.
abbrev pub segment_object : Bytes × ℕ → Bytes
segment_object (name, n) =
    object (member (codes "segment") (string name) ∷ member (codes "propCount") (decimal n) ∷ [])

segment_json-segment_object :
    (name : Bytes) (n : ℕ) → segment_json name n ≡ segment_object (name, n)
segment_json-segment_object name n = simp (append_assoc, append-nil)

same_pieces : (ps : List (Bytes × ℕ)) → map (λ p. segment_json p.0 p.1) ps ≡ map segment_object ps
same_pieces [] = refl
same_pieces ((name, n) ∷ ps) = rw (segment_json-segment_object name n, same_pieces ps) refl

pub segments_json-success_with :
    (ps : List (Bytes × ℕ))
    → segments_json (map (λ p. segment_json p.0 p.1) ps)
      ≡ success_with (member (codes "segments") (array (map segment_object ps)) ∷ [])
segments_json-success_with ps =
    ap segments_json (same_pieces ps)
    ∙ rw (comma_separated-joined (map segment_object ps)) (simp append_assoc)

-- A day of a room.
abbrev pub day_document : Bytes → Bytes → ℕ → ℕ → List Bytes → Bytes
day_document property_id date availability final_price rate_features = success_with (
    member (codes "property_id") (string property_id)
    ∷ member (codes "date") (string date)
    ∷ member (codes "availability") (decimal availability)
    ∷ member (codes "final_price") (decimal final_price)
    ∷ member (codes "rate_feature") (array (map string rate_features))
    ∷ [])

pub day_json-day_document :
    (property_id date : Bytes) (availability final_price : ℕ) (rate_features : List Bytes)
    → day_json property_id date availability final_price rate_features
      ≡ day_document property_id date availability final_price rate_features
day_json-day_document property_id date availability final_price rate_features =
    rw (quoted_list-joined rate_features) (simp append_assoc)

-- The ids that SEARCHPROP lists.
pub properties_json-success_with :
    (ids : List Bytes)
    → codes "{\"status\":\"success\",\"properties\":[" ++ (quoted_list ids ++ codes "]}")
      ≡ success_with (member (codes "properties") (array (map string ids)) ∷ [])
properties_json-success_with ids = rw (quoted_list-joined ids) (simp append_assoc)

-- The answer that the proxy makes up for an error of its own.
abbrev pub message_for : RzError → Bytes
message_for (validation msg) = msg
message_for (roomzin_unreachable addr) =
    codes "Service is temporarily unavailable. Please try again later."
message_for timeout = codes "The request took too long. Please try again."
message_for (internal msg) = codes "Something went wrong on our end. Please try again later."
message_for (network msg) =
    codes "Unable to reach the service. Please check your connection and retry."

abbrev pub own_error : RzError → Bytes
own_error e = error_document (message_for e)

build_error_message-message_for : (e : RzError) → build_error_message e ≡ message_for e
unfolding build_error_message
build_error_message-message_for (validation msg) = refl
build_error_message-message_for (roomzin_unreachable addr) = refl
build_error_message-message_for timeout = refl
build_error_message-message_for (internal msg) = refl
build_error_message-message_for (network msg) = refl

pub error_response-own_error :
    (m : Metrics) (e : RzError)
    → error_response m e ≡ (json_response bad_request (own_error e), inc_client_errors m)
unfolding error_response
error_response-own_error m e =
    rw (build_error_message-message_for e)
      (ap (λ (t : Bytes). (json_response bad_request t, inc_client_errors m)) (simp append_assoc))

pub invalid_response-error_document :
    invalid_response
    ≡ json_response internal_server_error (error_document (codes "INVALID_RESPONSE_FORMAT"))
unfolding invalid_response
invalid_response-error_document = refl
