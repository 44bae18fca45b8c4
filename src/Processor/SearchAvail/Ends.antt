-- ===== src/Processor/SearchAvail/Ends.antt =====
-- The decoder of SEARCHAVAIL ends on every payload.
use rzgate.Prelude.{
  ℕ, zero, suc, ◌+◌, ◌*◌, ◌%◌, ◌≤◌, ◌<◌, ◌≡◌, ◌==◌, ◌||◌, ◌&&◌, not, Bool, true, false, leb, ltb,
  length, arith, equal,
}
use rzgate.Bytes.{Bytes}
use rzgate.RzError.{Result, ok, err}
use rzgate.Flow.{read_u16}
use rzgate.Flow.Rules.{
  Returns, value, early, Returns-bind, Returns-from, Returns-if, slice_le, index_lt, read_u16_lt,
  read_u32_lt, Gives, given, left_early, Gives-bind, Gives-from, Gives-if, Gives-Returns,
  Returns-Gives,
}
use rzgate.Metrics.{Metrics}
use rzgate.Bitmask.{Cell}
use rzgate.Helper.PackedDate.{Calendar}
use rzgate.Protocol.Reply.{success, Head, read_head}
use rzgate.Protocol.Reply.Ends.{
  Returns-reject_if, Gives-reject_if, read_head_lt, read_prologue-Returns,
}
use rzgate.Protocol.Response.Ends.{handle_non_success_status-Returns}
use rzgate.Processor.SearchAvail.{
  or_reject, with_comma, read_days_field, read_days_count, Written, write_day, write_days,
  write_property, take_field, scan_avail, decode_search_avail_response,
}

or_reject-Returns : (r : Result Bytes) → Returns (or_reject r)
or_reject-Returns (ok json) = value json
or_reject-Returns (err e) = early

-- The offset has not fallen, and stays inside the payload.
abbrev IsAhead : {A : Type 0} → Bytes → ℕ → A × ℕ → Type 0
IsAhead bytes offset (_, after) = (offset ≤ after) × (after ≤ length bytes)

read_days_field-IsAhead :
    (bytes : Bytes) (offset current_field : ℕ)
    → offset ≤ length bytes
    → Gives (IsAhead bytes offset) (read_days_field bytes offset current_field)
unfolding read_days_field
read_days_field-IsAhead bytes offset current_field low =
    Gives-reject_if _ (ltb (length bytes) (offset + 7)) _ λ long.
      Gives-from _ (read_head bytes offset) _ (read_head_lt bytes offset (ground arith)) λ head _.
        Gives-reject_if _ (not (head.id == (current_field + 1) % 65536)) _ λ _.
          Gives-reject_if _
            (not (head.field_type == 0x08) || ltb (length bytes) (offset + 7 + head.len)) _
            λ inside.
              let (d, e, _) =
                slice_le bytes (offset + 7) (offset + 7 + head.len) (omega arith) (ground arith) in
              rw e (given _ (omega arith, ground arith))

read_days_count-length :
    (days_data : Bytes) → Gives (λ n. length days_data ≡ 2 + 11 * n) (read_days_count days_data)
unfolding read_days_count
read_days_count-length days_data = Gives-reject_if _ (ltb (length days_data) 2) _ λ long.
    Gives-from _ (read_u16 days_data 0) _ (read_u16_lt days_data 0 (ground arith)) λ n _.
      Gives-reject_if _ (not (length days_data == 2 + 11 * n)) _ λ same. given n (ground arith)

module _ (cal : Calendar) (current_year : ℕ) (cell : Cell) where
  write_day-Returns :
      (json days_data : Bytes) (d_off : ℕ)
      → d_off + 11 ≤ length days_data
      → Returns (write_day cal current_year cell json days_data d_off)
  unfolding write_day
  write_day-Returns json days_data d_off room =
      Returns-from _ _ (read_u16_lt days_data d_off (omega arith)) λ packed _.
        Returns-bind _ (or_reject-Returns _) λ dated.
          Returns-from _ _ (index_lt days_data (d_off + 2) (omega arith)) λ availability _.
            Returns-from _ _ (read_u32_lt days_data (d_off + 3) (omega arith)) λ price _.
              Returns-from _ _ (read_u32_lt days_data (d_off + 7) (omega arith)) λ mask _. value _

  write_days-Returns :
      (rounds : ℕ) (json : Bytes) (first : Bool) (days_data : Bytes) (d_off : ℕ)
      → d_off + 11 * rounds ≤ length days_data
      → Returns (write_days cal current_year cell rounds json first days_data d_off)
  unfolding write_days
  write_days-Returns zero json first days_data d_off room = value json
  write_days-Returns (suc rounds) json first days_data d_off room =
      Returns-bind _ (write_day-Returns (with_comma json first) days_data d_off (omega arith))
        λ written. write_days-Returns rounds written false days_data (d_off + 11) (omega arith)

  write_property-IsAhead :
      (bytes : Bytes) (offset : ℕ) (field_data : Bytes) (s : Written)
      → offset ≤ length bytes
      → Gives
          (IsAhead bytes offset)
          (write_property cal current_year cell bytes offset field_data s)
  unfolding write_property
  write_property-IsAhead bytes offset field_data s low =
      Gives-bind _ _ (read_days_field bytes offset s.current_field) _
        (read_days_field-IsAhead bytes offset s.current_field low)
        λ (days_data, after) ahead.
          Gives-bind _ _ (read_days_count days_data) _ (read_days_count-length days_data) λ n long.
            Gives-Returns _ _ _ (write_days-Returns n _ true days_data 2 (omega arith))
              λ json. given _ ahead

  take_field-IsAhead :
      (bytes : Bytes) (offset : ℕ) (head : Head) (field_data : Bytes) (s : Written)
      → offset ≤ length bytes
      → length field_data ≡ head.len
      → Gives
          (IsAhead bytes offset)
          (take_field cal current_year cell bytes offset head field_data s)
  unfolding take_field
  take_field-IsAhead bytes offset head field_data s low long =
      Gives-if _ (s.current_field == 1 && head.field_type == 0x02) _ _
        (λ _. Gives-reject_if _ (not (head.len == 2)) _ λ two.
          Gives-from _ (read_u16 field_data 0) _ (read_u16_lt field_data 0 (ground arith))
            λ _ _. given _ (omega arith, low))
        λ _.
          Gives-if _ (head.field_type == 0x01 && s.current_field % 2 == 0) _ _
            (λ _.
              Gives-bind _ _ _ _ (write_property-IsAhead bytes offset field_data s low)
                λ (json, after) ahead. given _ ahead)
            λ _. left_early

  scan_avail-Returns :
      (fuel : ℕ) (bytes : Bytes) (offset : ℕ) (s : Written)
      → offset ≤ length bytes
      → length bytes < fuel + offset
      → Returns (scan_avail cal current_year cell fuel bytes offset s)
  unfolding scan_avail
  scan_avail-Returns zero bytes offset s low h = absurd (omega arith)
  scan_avail-Returns (suc fuel) bytes offset s low h =
      Returns-if (leb (offset + 7) (length bytes)) _ _
        (λ more. Returns-from _ _ (read_head_lt bytes offset (ground arith)) λ head _.
          Returns-reject_if (not (head.id == s.current_field)) λ _.
            Returns-reject_if (ltb (length bytes) (offset + 7 + head.len)) λ inside.
              let (b, e, long) =
                slice_le bytes (offset + 7) (offset + 7 + head.len) (omega arith) (ground arith) in
              rw e (
                Returns-Gives _ _ _
                  (take_field-IsAhead bytes (offset + 7 + head.len) head b s (ground arith)
                    (omega arith))
                  λ (after, offset2) ahead.
                    scan_avail-Returns fuel bytes offset2 after ahead.1 (omega arith)))
        λ _. value s

  -- `decode_search_avail_response` answers every payload: its loop ends within as many rounds as the payload
  -- has bytes, and no index and no slice is out of bounds, neither of the payload nor of a vector of days.
  pub decode_search_avail_response-Returns :
      (m : Metrics) (bytes : Bytes)
      → Returns (decode_search_avail_response cal current_year cell m bytes)
  unfolding decode_search_avail_response
  decode_search_avail_response-Returns m bytes = read_prologue-Returns bytes _ λ p low.
      Returns-if (not (equal p.status success)) _ _
        (λ _. handle_non_success_status-Returns m bytes p.status p.field_count p.offset)
        λ _.
          Returns-if (p.field_count == 0) _ _ (λ _. value _)
            λ _.
              Returns-reject_if
                (ltb p.field_count 1 || not ((p.field_count + 65535) % 65536 % 2 == 0))
                λ _.
                  Returns-bind _
                    (scan_avail-Returns (length bytes) bytes p.offset _ low.1
                      (omega (arith, low.0)))
                    λ s.
                      Returns-reject_if (not ((s.current_field + 65535) % 65536 == p.field_count))
                        λ _. value _
