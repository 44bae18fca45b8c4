-- ===== src/Processor/Base/Commands.antt =====
-- The commands as a table: the name, whether it writes, the segment it is routed by, the builder of its request
-- and the decoder of its response. The dispatch does what the table says, and refuses everything else.
use rzgate.Document.{error_document}
use rzgate.Document.Answers.{error_response-own_error}
use rzgate.Prelude.{
  ap, ◌≡◌, ◌≢◌, refl, ◌∙◌, false, Bool-cases, inl, inr, length, Option, none, some, equal,
  equal_sound,
}
use rzgate.Bytes.{Bytes, codes}
use rzgate.RzError.{validation, Result}
use rzgate.Metrics.{Metrics, inc_commands, add_bytes_received, inc_client_errors}
use rzgate.Http.{Response, json_response, bad_request}
use rzgate.Protocol.Response.{decode_simple_response}
use rzgate.Processor.Json.{text}
use rzgate.Processor.Perform.{Decoder, perform}
use rzgate.Processor.Deletes.{
  build_del_prop, build_del_segment, build_del_prop_day, build_del_prop_room, build_del_room_day,
  process_del_prop, process_del_segment, process_del_prop_day, process_del_prop_room,
  process_del_room_day,
}
use rzgate.Processor.Exists.{
  decode_exists, build_prop_exist, build_prop_room_exist, process_prop_exist,
  process_prop_room_exist,
}
use rzgate.Processor.Availability.{
  decode_availability, build_room_avl, process_set_room_avl, process_inc_room_avl,
  process_dec_room_avl,
}
use rzgate.Processor.SetProp.{build_set_prop, process_set_prop}
use rzgate.Processor.SetRoomPkg.{build_set_room_pkg, process_set_room_pkg}
use rzgate.Processor.RoomList.{
  build_prop_room_list, decode_prop_room_list_response, process_prop_room_list,
}
use rzgate.Processor.Segments.{
  build_get_segments, decode_get_segments_response, process_get_segments,
}
use rzgate.Processor.DateList.{decode_prop_room_date_list_response, process_prop_room_date_list}
use rzgate.Processor.DateList.Request.{build_prop_room_date_list}
use rzgate.Processor.RoomDay.{decode_get_prop_room_day_response, process_get_prop_room_day}
use rzgate.Processor.RoomDay.Request.{build_get_prop_room_day}
use rzgate.Processor.SearchProp.{
  build_search_prop, decode_search_prop_response, process_search_prop,
}
use rzgate.Processor.SearchAvail.{decode_search_avail_response, process_search_avail}
use rzgate.Processor.SearchAvail.Request.{build_search_avail}
use rzgate.Processor.Base.{Services, refuse_request, dispatch, body_of, process_value, process}
use rzgate.Processor.Base.Table.{
  Command, set_prop, prop_exist, search_prop, set_room_pkg, set_room_avl, inc_room_avl,
  dec_room_avl, del_room_day, prop_room_exist, get_prop_room_day, prop_room_date_list,
  del_prop_room, search_avail, prop_room_list, del_prop, del_segment, del_prop_day, get_segments,
  name_of, writes, routed_by,
}

equal-false : (x y : Bytes) → x ≢ y → equal x y ≡ false
equal-false x y h = elim (Bool-cases (equal x y)) [
  | inl e ↦ absurd (h (equal_sound x y e))
  | inr e ↦ e
]

-- No command has this name.
abbrev pub IsUnknown : Bytes → Type 0
IsUnknown command = (c : Command) → command ≢ name_of c

module _ (services : Services) where
  open services use {json, cal, current_year, uuid_to_string, cell, handler}

  abbrev pub build_of : Command → json.Value → Result Bytes
  build_of set_prop = build_set_prop json
  build_of prop_exist = build_prop_exist json
  build_of search_prop = build_search_prop json
  build_of set_room_pkg = build_set_room_pkg json
  build_of set_room_avl = build_room_avl json (codes "SETROOMAVL")
  build_of inc_room_avl = build_room_avl json (codes "INCROOMAVL")
  build_of dec_room_avl = build_room_avl json (codes "DECROOMAVL")
  build_of del_room_day = build_del_room_day json
  build_of prop_room_exist = build_prop_room_exist json
  build_of get_prop_room_day = build_get_prop_room_day json
  build_of prop_room_date_list = build_prop_room_date_list json
  build_of del_prop_room = build_del_prop_room json
  build_of search_avail = build_search_avail json
  build_of prop_room_list = build_prop_room_list json
  build_of del_prop = build_del_prop json
  build_of del_segment = build_del_segment json
  build_of del_prop_day = build_del_prop_day json
  build_of get_segments = build_get_segments json

  abbrev pub decoder_of : Command → Decoder
  decoder_of prop_exist = decode_exists
  decoder_of prop_room_exist = decode_exists
  decoder_of set_room_avl = decode_availability
  decoder_of inc_room_avl = decode_availability
  decoder_of dec_room_avl = decode_availability
  decoder_of search_prop = decode_search_prop_response uuid_to_string
  decoder_of get_prop_room_day = decode_get_prop_room_day_response uuid_to_string cell
  decoder_of prop_room_date_list = decode_prop_room_date_list_response
  decoder_of search_avail = decode_search_avail_response cal current_year cell
  decoder_of prop_room_list = decode_prop_room_list_response
  decoder_of get_segments = decode_get_segments_response
  decoder_of _ = decode_simple_response

  -- What the table says of a command.
  abbrev pub answer : Command → Bytes → json.Value → Metrics → Option (Response × Metrics)
  answer c segment payload metrics =
      perform handler (routed_by c segment) (writes c) (build_of c payload) (decoder_of c) metrics

  pub dispatch-name_of :
      (c : Command) (segment : Bytes) (payload : json.Value) (m : Metrics)
      → dispatch services (name_of c) segment payload m ≡ answer c segment payload m
  unfolding dispatch equal process_set_prop process_prop_exist process_search_prop
      process_set_room_pkg process_set_room_avl process_inc_room_avl process_dec_room_avl
      process_del_room_day process_prop_room_exist process_get_prop_room_day
      process_prop_room_date_list process_del_prop_room process_search_avail process_prop_room_list
      process_del_prop process_del_segment process_del_prop_day process_get_segments
  dispatch-name_of set_prop segment payload m = refl
  dispatch-name_of prop_exist segment payload m = refl
  dispatch-name_of search_prop segment payload m = refl
  dispatch-name_of set_room_pkg segment payload m = refl
  dispatch-name_of set_room_avl segment payload m = refl
  dispatch-name_of inc_room_avl segment payload m = refl
  dispatch-name_of dec_room_avl segment payload m = refl
  dispatch-name_of del_room_day segment payload m = refl
  dispatch-name_of prop_room_exist segment payload m = refl
  dispatch-name_of get_prop_room_day segment payload m = refl
  dispatch-name_of prop_room_date_list segment payload m = refl
  dispatch-name_of del_prop_room segment payload m = refl
  dispatch-name_of search_avail segment payload m = refl
  dispatch-name_of prop_room_list segment payload m = refl
  dispatch-name_of del_prop segment payload m = refl
  dispatch-name_of del_segment segment payload m = refl
  dispatch-name_of del_prop_day segment payload m = refl
  dispatch-name_of get_segments segment payload m = refl

  -- The body parses to an object that names a command and a segment.
  pub record Asks (body command segment : Bytes) (value : json.Value) : Type 0 where
    pub parsed : json.from_slice body ≡ some value
    pub named : text json value (codes "command") ≡ some command
    pub placed : text json value (codes "segment") ≡ some segment

  -- The metrics once the request is counted.
  abbrev pub request_counted : Metrics → Bytes → Metrics
  request_counted m body = add_bytes_received (inc_commands m) (length body)

  pub process-dispatch :
      (body command segment : Bytes) (value : json.Value) (m : Metrics)
      → Asks body command segment value
      → process services body m
        ≡ dispatch services command segment (body_of services value) (request_counted m body)
  unfolding process process_value
  process-dispatch body command segment value m asks =
      rw (process, asks.parsed) (rw (process_value, asks.named) (rw (process_value, asks.placed)))

  pub dispatch-IsUnknown :
      (command segment : Bytes) (payload : json.Value) (m : Metrics)
      → IsUnknown command
      → dispatch services command segment payload m ≡ refuse_request m (codes "unsupported command")
  unfolding dispatch
  dispatch-IsUnknown command segment payload m unknown = rw (
    equal-false command (codes "SETPROP") (unknown set_prop),
    equal-false command (codes "PROPEXIST") (unknown prop_exist),
    equal-false command (codes "SEARCHPROP") (unknown search_prop),
    equal-false command (codes "SETROOMPKG") (unknown set_room_pkg),
    equal-false command (codes "SETROOMAVL") (unknown set_room_avl),
    equal-false command (codes "INCROOMAVL") (unknown inc_room_avl),
    equal-false command (codes "DECROOMAVL") (unknown dec_room_avl),
    equal-false command (codes "DELROOMDAY") (unknown del_room_day),
    equal-false command (codes "PROPROOMEXIST") (unknown prop_room_exist),
    equal-false command (codes "GETPROPROOMDAY") (unknown get_prop_room_day),
    equal-false command (codes "PROPROOMDATELIST") (unknown prop_room_date_list),
    equal-false command (codes "DELPROPROOM") (unknown del_prop_room),
    equal-false command (codes "SEARCHAVAIL") (unknown search_avail),
    equal-false command (codes "PROPROOMLIST") (unknown prop_room_list),
    equal-false command (codes "DELPROP") (unknown del_prop),
    equal-false command (codes "DELSEGMENT") (unknown del_segment),
    equal-false command (codes "DELPROPDAY") (unknown del_prop_day),
    equal-false command (codes "GETSEGMENTS") (unknown get_segments),
  )

  -- Why a request gets no further than the dispatch, with the message of the answer.
  pub data Refused (body : Bytes) : Bytes → Type 0 where
    not_json : json.from_slice body ≡ none → Refused body (codes "Invalid JSON")
    no_command :
        (value : json.Value)
        → json.from_slice body ≡ some value
        → text json value (codes "command") ≡ none
        → Refused body (codes "Missing command field")
    no_segment :
        (value : json.Value) (command : Bytes)
        → json.from_slice body ≡ some value
        → text json value (codes "command") ≡ some command
        → text json value (codes "segment") ≡ none
        → Refused body (codes "Missing segment field")
    unknown_command :
        (value : json.Value) (command segment : Bytes)
        → Asks body command segment value
        → IsUnknown command
        → Refused body (codes "unsupported command")

  pub process-refuse_request :
      (body msg : Bytes) (m : Metrics)
      → Refused body msg
      → process services body m ≡ refuse_request (request_counted m body) msg
  unfolding process process_value
  process-refuse_request body msg m (not_json p) = rw (process, p)
  process-refuse_request body msg m (no_command value p q) = rw (process, p) (rw (process_value, q))
  process-refuse_request body msg m (no_segment value command p q r) =
      rw (process, p) (rw (process_value, q) (rw (process_value, r)))
  process-refuse_request body msg m (unknown_command value command segment asks unknown) =
      process-dispatch body command segment value m asks
      ∙ dispatch-IsUnknown command segment (body_of services value) (request_counted m body) unknown

  -- A body that is no JSON, or has no command, or no segment, or a command of another name, is answered by 400
  -- and a JSON error with the message for the first of these that applies. The request, its bytes and one
  -- client error are counted, and nothing else; the handler is not called.
  pub process-Refused :
      (body msg : Bytes) (m : Metrics)
      → Refused body msg
      → process services body m
        ≡ some (
          json_response bad_request (error_document msg),
          inc_client_errors (request_counted m body),
        )
  process-Refused body msg m refused =
      process-refuse_request body msg m refused
      ∙ ap some (error_response-own_error (request_counted m body) (validation msg))
