-- ===== src/Processor/Base/Table.antt =====
-- The commands of the dispatch, as a table: their names, how they are routed, and which of them write.
use rzgate.Prelude.{Bool, true, false}
use rzgate.Bytes.{Bytes, codes}

pub data Command : Type 0 where
  set_prop : Command
  prop_exist : Command
  search_prop : Command
  set_room_pkg : Command
  set_room_avl : Command
  inc_room_avl : Command
  dec_room_avl : Command
  del_room_day : Command
  prop_room_exist : Command
  get_prop_room_day : Command
  prop_room_date_list : Command
  del_prop_room : Command
  search_avail : Command
  prop_room_list : Command
  del_prop : Command
  del_segment : Command
  del_prop_day : Command
  get_segments : Command

abbrev pub name_of : Command → Bytes
name_of set_prop = codes "SETPROP"
name_of prop_exist = codes "PROPEXIST"
name_of search_prop = codes "SEARCHPROP"
name_of set_room_pkg = codes "SETROOMPKG"
name_of set_room_avl = codes "SETROOMAVL"
name_of inc_room_avl = codes "INCROOMAVL"
name_of dec_room_avl = codes "DECROOMAVL"
name_of del_room_day = codes "DELROOMDAY"
name_of prop_room_exist = codes "PROPROOMEXIST"
name_of get_prop_room_day = codes "GETPROPROOMDAY"
name_of prop_room_date_list = codes "PROPROOMDATELIST"
name_of del_prop_room = codes "DELPROPROOM"
name_of search_avail = codes "SEARCHAVAIL"
name_of prop_room_list = codes "PROPROOMLIST"
name_of del_prop = codes "DELPROP"
name_of del_segment = codes "DELSEGMENT"
name_of del_prop_day = codes "DELPROPDAY"
name_of get_segments = codes "GETSEGMENTS"

-- The commands that change the database: they set, raise, lower or delete something.
abbrev pub writes : Command → Bool
writes prop_exist = false
writes search_prop = false
writes prop_room_exist = false
writes get_prop_room_day = false
writes prop_room_date_list = false
writes search_avail = false
writes prop_room_list = false
writes get_segments = false
writes _ = true

-- GETSEGMENTS belongs to no segment, and is routed by its own name.
abbrev pub routed_by : Command → Bytes → Bytes
routed_by get_segments segment = codes "GETSEGMENTS"
routed_by _ segment = segment
