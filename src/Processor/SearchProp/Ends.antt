-- ===== src/Processor/SearchProp/Ends.antt =====
-- The decoder of SEARCHPROP ends on every payload.
use rzgate.Prelude.{ℕ, zero, suc, ◌+◌, ◌==◌, ◌||◌, not, ltb, length, arith, equal}
use rzgate.Bytes.{Bytes}
use rzgate.Flow.Rules.{Returns, value, Returns-bind, Returns-from, Returns-if, slice_le}
use rzgate.Metrics.{Metrics}
use rzgate.Protocol.Reply.{success}
use rzgate.Protocol.Reply.Ends.{Returns-reject_if, read_head_lt, read_prologue-Returns}
use rzgate.Protocol.Response.Ends.{handle_non_success_status-Returns}
use rzgate.Processor.SearchProp.{read_text_field, read_properties, decode_search_prop_response}

read_text_field-Returns :
    (bytes : Bytes) (expected_id offset : ℕ) → Returns (read_text_field bytes expected_id offset)
unfolding read_text_field
read_text_field-Returns bytes expected_id offset =
    Returns-reject_if (ltb (length bytes) (offset + 7)) λ long.
      Returns-from _ _ (read_head_lt bytes offset (ground arith)) λ head _.
        Returns-reject_if (not (head.id == expected_id) || not (head.field_type == 0x01)) λ _.
          Returns-reject_if (ltb (length bytes) (offset + 7 + head.len)) λ inside.
            let (s, e, _) =
              slice_le bytes (offset + 7) (offset + 7 + head.len) (omega arith) (ground arith) in
            rw e (value _)

module _ (uuid_to_string : Bytes → Bytes) where
  read_properties-Returns :
      (left : ℕ) (bytes : Bytes) (expected_id offset : ℕ)
      → Returns (read_properties uuid_to_string left bytes expected_id offset)
  unfolding read_properties
  read_properties-Returns zero bytes expected_id offset = value _
  read_properties-Returns (suc left) bytes expected_id offset =
      Returns-bind _ (read_text_field-Returns bytes expected_id offset) λ (raw, after).
        Returns-bind _ (read_properties-Returns left bytes (expected_id + 1) after) λ _. value _

  -- `decode_search_prop_response` answers every payload: no index and no slice is out of bounds, however many
  -- fields it announces.
  pub decode_search_prop_response-Returns :
      (m : Metrics) (bytes : Bytes) → Returns (decode_search_prop_response uuid_to_string m bytes)
  unfolding decode_search_prop_response
  decode_search_prop_response-Returns m bytes = read_prologue-Returns bytes _ λ p low.
      Returns-if (not (equal p.status success)) _ _
        (λ _. handle_non_success_status-Returns m bytes p.status p.field_count p.offset)
        λ _.
          Returns-if (p.field_count == 0) _ _ (λ _. value _)
            λ _.
              Returns-if (p.field_count == 1) _ _
                (λ _. Returns-bind _ (read_text_field-Returns bytes 1 p.offset) λ _. value _)
                λ _.
                  Returns-bind _ (read_properties-Returns p.field_count bytes 1 p.offset)
                    λ _. value _
