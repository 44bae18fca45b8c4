-- ===== src/Processor/RoomDay/Ends.antt =====
-- The decoder of GETPROPROOMDAY ends on every payload.
use rzgate.Prelude.{ℕ, ◌+◌, ◌==◌, ◌||◌, not, ltb, List, length, arith, equal}
use rzgate.Bytes.{Bytes}
use rzgate.Flow.Rules.{
  Returns, value, early, Returns-bind, Returns-from, Returns-if, slice_le, index_lt, read_u32_lt,
}
use rzgate.RzError.{Result, ok, err}
use rzgate.Bitmask.{Cell}
use rzgate.Metrics.{Metrics}
use rzgate.Protocol.Reply.{success}
use rzgate.Protocol.Reply.Ends.{Returns-reject_if, read_head_lt, read_prologue-Returns}
use rzgate.Protocol.Response.Ends.{handle_non_success_status-Returns}
use rzgate.Helper.RateFeatures.{bitmask_to_rate_feature_strings}
use rzgate.Processor.RoomDay.{read_field, read_day, or_invalid, decode_get_prop_room_day_response}

read_field-Returns : (bytes : Bytes) (offset : ℕ) → Returns (read_field bytes offset)
unfolding read_field
read_field-Returns bytes offset = Returns-reject_if (ltb (length bytes) (offset + 7)) λ long.
    Returns-from _ _ (read_head_lt bytes offset (ground arith)) λ head _.
      Returns-reject_if (ltb (length bytes) (offset + 7 + head.len)) λ inside.
        let (s, e, _) =
          slice_le bytes (offset + 7) (offset + 7 + head.len) (omega arith) (ground arith) in
        rw e (value _)

read_day-Returns : (bytes : Bytes) (offset : ℕ) → Returns (read_day bytes offset)
unfolding read_day
read_day-Returns bytes offset = Returns-bind _ (read_field-Returns bytes offset) λ (f1, offset1).
    Returns-reject_if (not (f1.id == 1) || not (f1.field_type == 0x01)) λ _.
      Returns-bind _ (read_field-Returns bytes offset1) λ (f2, offset2).
        Returns-reject_if (not (f2.id == 2) || not (f2.field_type == 0x01)) λ _.
          Returns-bind _ (read_field-Returns bytes offset2) λ (f3, offset3).
            Returns-reject_if
              (not (f3.id == 3) || not (f3.field_type == 0x02) || not (length f3.payload == 1))
              λ one. Returns-from _ _ (index_lt f3.payload 0 (ground arith)) λ _ _.
                Returns-bind _ (read_field-Returns bytes offset3) λ (f4, offset4).
                  Returns-reject_if
                    (not (f4.id == 4)
                      || not (f4.field_type == 0x03)
                      || not (length f4.payload == 4))
                    λ four. Returns-from _ _ (read_u32_lt f4.payload 0 (ground arith)) λ _ _.
                      Returns-bind _ (read_field-Returns bytes offset4) λ (f5, offset5).
                        Returns-reject_if
                          (not (f5.id == 5)
                            || not (f5.field_type == 0x03)
                            || not (length f5.payload == 4))
                          λ four2.
                            Returns-from _ _ (read_u32_lt f5.payload 0 (ground arith))
                              λ _ _. Returns-reject_if (not (offset5 == length bytes)) λ _. value _

or_invalid-Returns : (r : Result (List Bytes)) → Returns (or_invalid r)
or_invalid-Returns (ok features) = value features
or_invalid-Returns (err e) = early

-- `decode_get_prop_room_day_response` answers every payload: no index and no slice of its five reads is out
-- of bounds.
pub decode_get_prop_room_day_response-Returns :
    (uuid_to_string : Bytes → Bytes) (cell : Cell) (m : Metrics) (bytes : Bytes)
    → Returns (decode_get_prop_room_day_response uuid_to_string cell m bytes)
unfolding decode_get_prop_room_day_response
decode_get_prop_room_day_response-Returns uuid_to_string cell m bytes =
    read_prologue-Returns bytes _ λ p low.
      Returns-if (not (equal p.status success)) _ _
        (λ _. handle_non_success_status-Returns m bytes p.status p.field_count p.offset)
        λ _. Returns-reject_if (not (p.field_count == 5)) λ _.
          Returns-bind _ (read_day-Returns bytes p.offset) λ day.
            Returns-bind _
              (or_invalid-Returns (bitmask_to_rate_feature_strings cell day.rate_feature_mask))
              λ _. value _
