-- ===== src/Processor/Base/Decoders.antt =====
-- Every command's decoder ends on every response, and counts as `Accounted` says.
use rzgate.Prelude.{ℕ, ◌==◌, [], length}
use rzgate.Bytes.{Bytes, codes}
use rzgate.Metrics.{Metrics}
use rzgate.Bitmask.{Cell}
use rzgate.Helper.PackedDate.{Calendar}
use rzgate.Flow.Rules.{Returns, Only, has, Only-bind, Only-if}
use rzgate.Protocol.Reply.{reject_if}
use rzgate.Protocol.Response.Ends.{decoders-Returns}
use rzgate.Protocol.Response.Accounts.{
  Accounted, IsAccounted, uncounted, sent_ok-Accounted, after_prologue,
  decode_simple_response-IsAccounted, decode_scalar_u8_response-IsAccounted,
  decode_boolean_response-IsAccounted,
}
use rzgate.Processor.Perform.{Decoder}
use rzgate.Processor.Exists.{decode_exists}
use rzgate.Processor.Availability.{decode_availability}
use rzgate.Protocol.Response.{decode_simple_response}
use rzgate.Processor.RoomList.{scan_names, decode_prop_room_list_response}
use rzgate.Processor.RoomList.Ends.{decode_prop_room_list_response-Returns}
use rzgate.Processor.Segments.{scan_segments, segment_jsons, decode_get_segments_response}
use rzgate.Processor.Segments.Ends.{decode_get_segments_response-Returns}
use rzgate.Processor.DateList.{scan_dates, decode_prop_room_date_list_response}
use rzgate.Processor.DateList.Ends.{decode_prop_room_date_list_response-Returns}
use rzgate.Processor.RoomDay.{read_day, or_invalid, decode_get_prop_room_day_response}
use rzgate.Processor.RoomDay.Ends.{decode_get_prop_room_day_response-Returns}
use rzgate.Processor.SearchProp.{read_text_field, read_properties, decode_search_prop_response}
use rzgate.Processor.SearchProp.Ends.{decode_search_prop_response-Returns}
use rzgate.Processor.SearchAvail.{scan_avail, decode_search_avail_response}
use rzgate.Processor.SearchAvail.Ends.{decode_search_avail_response-Returns}
use rzgate.Processor.Base.{Services}
use rzgate.Processor.Base.Table.{
  Command, set_prop, prop_exist, search_prop, set_room_pkg, set_room_avl, inc_room_avl,
  dec_room_avl, del_room_day, prop_room_exist, get_prop_room_day, prop_room_date_list,
  del_prop_room, search_avail, prop_room_list, del_prop, del_segment, del_prop_day, get_segments,
}
use rzgate.Processor.Base.Commands.{decoder_of}

room_list-IsAccounted : IsAccounted decode_prop_room_list_response
unfolding decode_prop_room_list_response
room_list-IsAccounted m bytes = after_prologue m bytes _ λ p.
    Only-if _ (p.field_count == 0) _ _ (has _ (sent_ok-Accounted m _)) (
      Only-bind _ (scan_names (length bytes) bytes p.offset _) _
        λ s. Only-bind _ (reject_if _) _ λ _. has _ (uncounted m _))

date_list-IsAccounted : IsAccounted decode_prop_room_date_list_response
unfolding decode_prop_room_date_list_response
date_list-IsAccounted m bytes = after_prologue m bytes _ λ p.
    Only-if _ (p.field_count == 0) _ _ (has _ (sent_ok-Accounted m _)) (
      Only-bind _ (scan_dates (length bytes) bytes p.offset _) _
        λ s. Only-bind _ (reject_if _) _ λ _. has _ (sent_ok-Accounted m _))

segments-IsAccounted : IsAccounted decode_get_segments_response
unfolding decode_get_segments_response
segments-IsAccounted m bytes = after_prologue m bytes _ λ p.
    Only-if _ (p.field_count == 0) _ _ (has _ (uncounted m _)) (
      Only-bind _ (reject_if _) _ λ _.
        Only-bind _ (scan_segments (length bytes) bytes p.offset _) _ λ s.
          Only-bind _ (reject_if _) _
            λ _. Only-bind _ (segment_jsons s.segments) _ λ _. has _ (sent_ok-Accounted m _))

module _ (uuid_to_string : Bytes → Bytes) where
  room_day-IsAccounted :
      (cell : Cell) → IsAccounted (decode_get_prop_room_day_response uuid_to_string cell)
  unfolding decode_get_prop_room_day_response
  room_day-IsAccounted cell m bytes = after_prologue m bytes _ λ p. Only-bind _ (reject_if _) _ λ _.
      Only-bind _ (read_day bytes p.offset) _
        λ day. Only-bind _ (or_invalid _) _ λ _. has _ (sent_ok-Accounted m _)

  search_prop-IsAccounted : IsAccounted (decode_search_prop_response uuid_to_string)
  unfolding decode_search_prop_response
  search_prop-IsAccounted m bytes = after_prologue m bytes _ λ p.
      Only-if _ (p.field_count == 0) _ _ (has _ (sent_ok-Accounted m _)) (
        Only-if _ (p.field_count == 1) _ _
          (Only-bind _ (read_text_field bytes 1 p.offset) _ λ _. has _ (uncounted m _))
          (Only-bind _ (read_properties uuid_to_string p.field_count bytes 1 p.offset) _
            λ _. has _ (uncounted m _)))

search_avail-IsAccounted :
    (cal : Calendar) (year : ℕ) (cell : Cell)
    → IsAccounted (decode_search_avail_response cal year cell)
unfolding decode_search_avail_response
search_avail-IsAccounted cal year cell m bytes = after_prologue m bytes _ λ p.
    Only-if _ (p.field_count == 0) _ _ (has _ (uncounted m _)) (
      Only-bind _ (reject_if _) _ λ _.
        Only-bind _ (scan_avail cal year cell (length bytes) bytes p.offset _) _
          λ s. Only-bind _ (reject_if _) _ λ _. has _ (uncounted m _))

-- The decoder answers, and what it counts.
abbrev pub IsDecoder : Decoder → Type 0
IsDecoder decode =
    (m : Metrics) (bytes : Bytes) → Returns (decode m bytes) × Only (Accounted m) (decode m bytes)

simple : IsDecoder decode_simple_response
simple m bytes = ((decoders-Returns m bytes []).0, decode_simple_response-IsAccounted m bytes)

exists : IsDecoder decode_exists
exists m bytes = (
  (decoders-Returns m bytes (codes "exists")).2,
  decode_boolean_response-IsAccounted (codes "exists") m bytes,
)

availability : IsDecoder decode_availability
availability m bytes = (
  (decoders-Returns m bytes (codes "availability")).1,
  decode_scalar_u8_response-IsAccounted (codes "availability") m bytes,
)

module _ (services : Services) where
  open services use {cal, current_year, uuid_to_string, cell}

  pub decoder_of-IsDecoder : (c : Command) → IsDecoder (decoder_of services c)
  decoder_of-IsDecoder set_prop = simple
  decoder_of-IsDecoder prop_exist = exists
  decoder_of-IsDecoder search_prop = λ m bytes. (
    decode_search_prop_response-Returns uuid_to_string m bytes,
    search_prop-IsAccounted uuid_to_string m bytes,
  )
  decoder_of-IsDecoder set_room_pkg = simple
  decoder_of-IsDecoder set_room_avl = availability
  decoder_of-IsDecoder inc_room_avl = availability
  decoder_of-IsDecoder dec_room_avl = availability
  decoder_of-IsDecoder del_room_day = simple
  decoder_of-IsDecoder prop_room_exist = exists
  decoder_of-IsDecoder get_prop_room_day = λ m bytes. (
    decode_get_prop_room_day_response-Returns uuid_to_string cell m bytes,
    room_day-IsAccounted uuid_to_string cell m bytes,
  )
  decoder_of-IsDecoder prop_room_date_list = λ m bytes.
      (decode_prop_room_date_list_response-Returns m bytes, date_list-IsAccounted m bytes)
  decoder_of-IsDecoder del_prop_room = simple
  decoder_of-IsDecoder search_avail = λ m bytes. (
    decode_search_avail_response-Returns cal current_year cell m bytes,
    search_avail-IsAccounted cal current_year cell m bytes,
  )
  decoder_of-IsDecoder prop_room_list =
      λ m bytes. (decode_prop_room_list_response-Returns m bytes, room_list-IsAccounted m bytes)
  decoder_of-IsDecoder del_prop = simple
  decoder_of-IsDecoder del_segment = simple
  decoder_of-IsDecoder del_prop_day = simple
  decoder_of-IsDecoder get_segments =
      λ m bytes. (decode_get_segments_response-Returns m bytes, segments-IsAccounted m bytes)
