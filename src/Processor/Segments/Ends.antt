-- ===== src/Processor/Segments/Ends.antt =====
-- The decoder of GETSEGMENTS ends on every payload: in particular, no segment is without its number when
-- the JSON is written.
use rzgate.Prelude.{
  ℕ, zero, suc, ◌+◌, ◌%◌, ◌≡◌, ◌≤◌, ◌<◌, ◌==◌, ◌||◌, ◌⊎◌, inl, inr, refl, not, leb, ltb, List, [],
  ◌∷◌, ◌++◌, length, arith, none, some, equal, Bool-cases,
}
use rzgate.Bytes.{Bytes}
use rzgate.Flow.{Flow, read_u32}
use rzgate.Flow.Rules.{
  Returns, value, Returns-bind, Returns-if, slice_le, read_u32_lt, Gives, given, left_early,
  Gives-bind, Gives-from, Returns-Gives,
}
use rzgate.Metrics.{Metrics}
use rzgate.Protocol.Reply.{success, Head, read_head}
use rzgate.Protocol.Reply.Ends.{
  Returns-reject_if, Gives-reject_if, read_head_lt, read_prologue-Returns,
}
use rzgate.Protocol.Response.Ends.{handle_non_success_status-Returns}
use rzgate.Processor.Segments.{
  Segment, set_last, take_field, Seen, scan_segments, segment_jsons, decode_get_segments_response,
}

-- Every segment has its number.
abbrev IsComplete : List Segment → Type 0
IsComplete [] = Unit
IsComplete ((_, none) ∷ ss) = ⊥
IsComplete ((_, some _) ∷ ss) = IsComplete ss

-- The last segment is still without its number, and all others have theirs.
abbrev IsOpen : List Segment → Type 0
IsOpen [] = ⊥
IsOpen ((_, none) ∷ []) = Unit
IsOpen ((_, some _) ∷ []) = ⊥
IsOpen ((_, none) ∷ s ∷ ss) = ⊥
IsOpen ((_, some _) ∷ s ∷ ss) = IsOpen (s ∷ ss)

-- What the next id says of the segments.
abbrev IsReady : ℕ → List Segment → Type 0
IsReady expected_id segments =
    ((expected_id % 2 ≡ 1) × IsComplete segments) ⊎ ((expected_id % 2 ≡ 0) × IsOpen segments)

named-IsOpen :
    (ss : List Segment) (name : Bytes) → IsComplete ss → IsOpen (ss ++ ((name, none) ∷ []))
named-IsOpen [] name h = tt
named-IsOpen ((_, none) ∷ ss) name h = elim h [ ]
named-IsOpen ((_, some _) ∷ []) name h = tt
named-IsOpen ((_, some _) ∷ s ∷ ss) name h = named-IsOpen (s ∷ ss) name h

set_last-IsComplete : (ss : List Segment) (n : ℕ) → IsOpen ss → Gives IsComplete (set_last ss n)
unfolding set_last
set_last-IsComplete [] n h = elim h [ ]
set_last-IsComplete ((name, none) ∷ []) n h = given _ tt
set_last-IsComplete ((name, some _) ∷ []) n h = elim h [ ]
set_last-IsComplete ((name, none) ∷ s ∷ ss) n h = elim h [ ]
set_last-IsComplete ((name, some k) ∷ s ∷ ss) n h =
    Gives-bind IsComplete IsComplete (set_last (s ∷ ss) n) _ (set_last-IsComplete (s ∷ ss) n h)
      (λ rest c. given ((name, some k) ∷ rest) c)

odd_even : (n : ℕ) → n % 2 ≡ 1 → (n + 1) % 65536 % 2 ≡ 0
odd_even n h = omega arith

even_odd : (n : ℕ) → n % 2 ≡ 0 → (n + 1) % 65536 % 2 ≡ 1
even_odd n h = omega arith

take_field-IsReady :
    (expected_id : ℕ) (head : Head) (field_data : Bytes) (ss : List Segment)
    → length field_data ≡ head.len
    → IsReady expected_id ss
    → Gives (IsReady ((expected_id + 1) % 65536)) (take_field expected_id head field_data ss)
unfolding take_field
take_field-IsReady n head field_data ss long (inl (odd, c)) = rw odd (
    Gives-reject_if _ (not (head.field_type == 0x01)) _
      (λ _. given _ (inr (odd_even n odd, named-IsOpen ss field_data c))))
take_field-IsReady n head field_data ss long (inr (even, o)) = rw even (
    Gives-reject_if _ (not (head.field_type == 0x03) || not (head.len == 4)) _ (λ four.
      Gives-from _ (read_u32 field_data 0) _ (read_u32_lt field_data 0 (ground arith))
        λ count _. weaken (set_last ss count) (set_last-IsComplete ss count o)))
  where
    weaken : (m : Flow (List Segment)) → Gives IsComplete m → Gives (IsReady ((n + 1) % 65536)) m
    weaken m (given ss c) = given ss (inl (even_odd n even, c))
    weaken m left_early = left_early

abbrev IsReadySeen : Seen → Type 0
IsReadySeen s = IsReady s.expected_id s.segments

scan_segments-IsReadySeen :
    (fuel : ℕ) (bytes : Bytes) (offset : ℕ) (s : Seen)
    → offset ≤ length bytes
    → length bytes < fuel + offset
    → IsReadySeen s
    → Gives IsReadySeen (scan_segments fuel bytes offset s)
unfolding scan_segments
scan_segments-IsReadySeen zero bytes offset s low h ready = absurd (omega arith)
scan_segments-IsReadySeen (suc fuel) bytes offset s low h ready =
    elim (Bool-cases (leb (offset + 7) (length bytes))) [
      | inr over ↦ rw over (given s ready)
      | inl more ↦ rw more (
          Gives-from _ (read_head bytes offset) _ (read_head_lt bytes offset (ground arith))
            λ head _. Gives-reject_if _ (not (head.id == s.expected_id)) _ λ _.
              Gives-reject_if _ (ltb (length bytes) (offset + 7 + head.len)) _ λ inside.
                let (b, e, long) =
                  slice_le bytes (offset + 7) (offset + 7 + head.len) (omega arith)
                    (ground arith) in
                rw e (
                  Gives-bind _ _ (take_field s.expected_id head b s.segments) _
                    (take_field-IsReady s.expected_id head b s.segments (omega arith) ready)
                    λ ss r.
                      scan_segments-IsReadySeen fuel bytes (offset + 7 + head.len) _ (ground arith)
                        (ground arith) r))
    ]

segment_jsons-Returns : (ss : List Segment) → IsComplete ss → Returns (segment_jsons ss)
unfolding segment_jsons
segment_jsons-Returns [] h = value []
segment_jsons-Returns ((name, none) ∷ ss) h = elim h [ ]
segment_jsons-Returns ((name, some n) ∷ ss) h =
    Returns-bind _ (segment_jsons-Returns ss h) λ _. value _

-- With an even number of fields, the loop has ended behind a complete pair.
ready-IsComplete :
    (n count : ℕ) (ss : List Segment)
    → (n + 65535) % 65536 ≡ count
    → count % 2 ≡ 0
    → IsReady n ss
    → IsComplete ss
ready-IsComplete n count ss same even (inl (odd, c)) = c
ready-IsComplete n count ss same even (inr (e, o)) = absurd (omega arith)

-- `decode_get_segments_response` answers every payload: its loop ends, no index and no slice is out of
-- bounds, and no segment is without its number when the JSON is written.
pub decode_get_segments_response-Returns :
    (m : Metrics) (bytes : Bytes) → Returns (decode_get_segments_response m bytes)
unfolding decode_get_segments_response
decode_get_segments_response-Returns m bytes = read_prologue-Returns bytes _ λ p low.
    Returns-if (not (equal p.status success)) _ _
      (λ _. handle_non_success_status-Returns m bytes p.status p.field_count p.offset)
      λ _.
        Returns-if (p.field_count == 0) _ _ (λ _. value _)
          λ _. Returns-reject_if (not (p.field_count % 2 == 0)) λ even.
            Returns-Gives IsReadySeen _ _
              (scan_segments-IsReadySeen (length bytes) bytes p.offset _ low.1
                (omega (arith, low.0)) (inl (refl, tt)))
              λ s ready.
                Returns-reject_if (not ((s.expected_id + 65535) % 65536 == p.field_count)) λ same.
                  Returns-bind _
                    (segment_jsons-Returns s.segments (
                      ready-IsComplete s.expected_id p.field_count s.segments (ground arith)
                        (ground arith) ready))
                    λ _. value _
