-- ===== src/Processor/Base.antt =====
-- src/processor/base.rs: the dispatch. It counts the request, parses the body, and calls the processor that
-- the command names.
pub mod Table
pub mod Commands
pub mod Decoders
pub mod Answers
pub mod Recognize
pub mod Accounts
pub mod Follows
pub mod Samples
mod Examples
use rzgate.Prelude.{ℕ, Bool, List, [], ◌∷◌, length, Option, none, some, equal, if◌then◌else◌}
use rzgate.Bytes.{Bytes, codes}
use rzgate.RzError.{validation}
use rzgate.Metrics.{Metrics, inc_commands, add_bytes_received}
use rzgate.Http.{Response}
use rzgate.Bitmask.{Cell}
use rzgate.Protocol.Failure.{error_response}
use rzgate.Helper.PackedDate.{Calendar}
use rzgate.Processor.Json.{Json, text}
use rzgate.Processor.Perform.{Backend}
use rzgate.Processor.Deletes.{
  process_del_prop, process_del_segment, process_del_prop_day, process_del_prop_room,
  process_del_room_day,
}
use rzgate.Processor.Exists.{process_prop_exist, process_prop_room_exist}
use rzgate.Processor.Availability.{process_set_room_avl, process_inc_room_avl, process_dec_room_avl}
use rzgate.Processor.SetProp.{process_set_prop}
use rzgate.Processor.SetRoomPkg.{process_set_room_pkg}
use rzgate.Processor.RoomList.{process_prop_room_list}
use rzgate.Processor.Segments.{process_get_segments}
use rzgate.Processor.DateList.{process_prop_room_date_list}
use rzgate.Processor.RoomDay.{process_get_prop_room_day}
use rzgate.Processor.SearchProp.{process_search_prop}
use rzgate.Processor.SearchAvail.{process_search_avail}

-- What the processors use besides their arguments: the crates, the clock's year, the cell of
-- src/bitmask.rs, and the handler's `execute`.
pub record Services : Type 1 where
  pub json : Json
  pub cal : Calendar
  pub current_year : ℕ
  pub uuid_to_string : Bytes → Bytes
  pub cell : Cell
  pub handler : Backend

-- `None => return error_response(metrics, RZError::Validation(..)).await`
abbrev pub refuse_request : Metrics → Bytes → Option (Response × Metrics)
refuse_request metrics msg = some (error_response metrics (validation msg))

module _ (services : Services) where
  open services use {json, cal, current_year, uuid_to_string, cell, handler}

  -- `match command.as_ref() { .. }`
  unfoldable pub dispatch : Bytes → Bytes → json.Value → Metrics → Option (Response × Metrics)
  dispatch command segment payload metrics =
      if equal command (codes "SETPROP")
      then process_set_prop json handler segment payload metrics
      else if equal command (codes "PROPEXIST")
      then process_prop_exist json handler segment payload metrics
      else if equal command (codes "SEARCHPROP")
      then process_search_prop uuid_to_string json handler segment payload metrics
      else if equal command (codes "SETROOMPKG")
      then process_set_room_pkg json handler segment payload metrics
      else if equal command (codes "SETROOMAVL")
      then process_set_room_avl json handler segment payload metrics
      else if equal command (codes "INCROOMAVL")
      then process_inc_room_avl json handler segment payload metrics
      else if equal command (codes "DECROOMAVL")
      then process_dec_room_avl json handler segment payload metrics
      else if equal command (codes "DELROOMDAY")
      then process_del_room_day json handler segment payload metrics
      else if equal command (codes "PROPROOMEXIST")
      then process_prop_room_exist json handler segment payload metrics
      else if equal command (codes "GETPROPROOMDAY")
      then process_get_prop_room_day uuid_to_string cell json handler segment payload metrics
      else if equal command (codes "PROPROOMDATELIST")
      then process_prop_room_date_list json handler segment payload metrics
      else if equal command (codes "DELPROPROOM")
      then process_del_prop_room json handler segment payload metrics
      else if equal command (codes "SEARCHAVAIL")
      then process_search_avail cal current_year cell json handler segment payload metrics
      else if equal command (codes "PROPROOMLIST")
      then process_prop_room_list json handler segment payload metrics
      else if equal command (codes "DELPROP")
      then process_del_prop json handler segment payload metrics
      else if equal command (codes "DELSEGMENT")
      then process_del_segment json handler segment payload metrics
      else if equal command (codes "DELPROPDAY")
      then process_del_prop_day json handler segment payload metrics
      else if equal command (codes "GETSEGMENTS")
      then process_get_segments json handler payload metrics
      else refuse_request metrics (codes "unsupported command")

  -- `json.get("body").unwrap_or(&Value::Null)`
  abbrev pub body_of : json.Value → json.Value
  body_of value = elim (json.get value (codes "body")) [ some payload ↦ payload | none ↦ json.null ]

  -- The command and the segment of the parsed body.
  unfoldable pub process_value : json.Value → Metrics → Option (Response × Metrics)
  unfolding dispatch
  process_value value metrics = elim (text json value (codes "command")) [
    | none ↦ refuse_request metrics (codes "Missing command field")
    | some command ↦ elim (text json value (codes "segment")) [
      | none ↦ refuse_request metrics (codes "Missing segment field")
      | some segment ↦ dispatch command segment (body_of value) metrics
    ]
  ]

  unfoldable pub process : Bytes → Metrics → Option (Response × Metrics)
  unfolding process_value
  process body metrics =
      let counted = add_bytes_received (inc_commands metrics) (length body) in
      elim (json.from_slice body) [
        | none ↦ refuse_request counted (codes "Invalid JSON")
        | some value ↦ process_value value counted
      ]
