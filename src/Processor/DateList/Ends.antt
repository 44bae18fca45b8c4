-- ===== src/Processor/DateList/Ends.antt =====
-- The decoder of PROPROOMDATELIST ends on every payload.
use rzgate.Prelude.{ℕ, zero, suc, ◌+◌, ◌≤◌, ◌<◌, ◌%◌, ◌==◌, not, leb, ltb, length, arith, equal}
use rzgate.Bytes.{Bytes}
use rzgate.Flow.Rules.{Returns, value, Returns-bind, Returns-from, Returns-if, slice_le}
use rzgate.Metrics.{Metrics}
use rzgate.Protocol.Reply.{success}
use rzgate.Protocol.Reply.Ends.{Returns-reject_if, read_head_lt, read_prologue-Returns}
use rzgate.Protocol.Response.Ends.{handle_non_success_status-Returns}
use rzgate.Processor.DateList.{Dates, scan_dates, decode_prop_room_date_list_response}

scan_dates-Returns :
    (fuel : ℕ) (bytes : Bytes) (offset : ℕ) (s : Dates)
    → offset ≤ length bytes
    → length bytes < fuel + offset
    → Returns (scan_dates fuel bytes offset s)
unfolding scan_dates
scan_dates-Returns zero bytes offset s low h = elim (impossible low h) [ ]
  where
    impossible : offset ≤ length bytes → length bytes < 0 + offset → ⊥
    impossible low h = omega arith
scan_dates-Returns (suc fuel) bytes offset s low h =
    Returns-if (leb (offset + 7) (length bytes)) _ _
      (λ more. Returns-from _ _ (read_head_lt bytes offset (ground arith)) λ head _.
        Returns-reject_if (not (head.id == s.expected_id)) λ _.
          Returns-reject_if (not (head.field_type == 0x01)) λ _.
            Returns-reject_if (ltb (length bytes) (offset + 7 + head.len)) λ inside.
              let (b, e, _) =
                slice_le bytes (offset + 7) (offset + 7 + head.len) (omega arith) (ground arith) in
              Returns-from _ _ (b, e)
                λ _ _.
                  scan_dates-Returns fuel bytes (offset + 7 + head.len) _ (ground arith)
                    (ground arith))
      λ _. value s

-- `decode_prop_room_date_list_response` answers every payload: it never panics, and its loop ends.
pub decode_prop_room_date_list_response-Returns :
    (m : Metrics) (bytes : Bytes) → Returns (decode_prop_room_date_list_response m bytes)
unfolding decode_prop_room_date_list_response
decode_prop_room_date_list_response-Returns m bytes = read_prologue-Returns bytes _ λ p low.
    Returns-if (not (equal p.status success)) _ _
      (λ _. handle_non_success_status-Returns m bytes p.status p.field_count p.offset)
      λ _.
        Returns-if (p.field_count == 0) _ _ (λ _. value _)
          λ _.
            Returns-bind _
              (scan_dates-Returns (length bytes) bytes p.offset _ low.1 (omega (arith, low.0)))
              λ s.
                Returns-reject_if (not ((s.expected_id + 65535) % 65536 == p.field_count))
                  λ _. value _
