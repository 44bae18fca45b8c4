-- ===== src/Processor/DateList/Listed.antt =====
-- What the decoder of PROPROOMDATELIST answers to a list of room types in the wire format.
use rzgate.Document.{success_with, member, array, string}
use rzgate.Document.Answers.{dates_json-success_with}
use rzgate.Prelude.{
  map, ℕ, zero, suc, ◌+◌, ◌%◌, ◌≤◌, ◌<◌, ◌≡◌, ◌≢◌, refl, sym, ap, ◌∙◌, true, false, leb, ltb,
  ==_refl, ==_false, List, [], ◌∷◌, ◌++◌, All, append_assoc, append-nil, length, length-append,
  arith, equal_refl,
}
use rzgate.Bytes.{Bytes, IsU32, codes}
use rzgate.Flow.{next}
use rzgate.Metrics.{Metrics}
use rzgate.Protocol.Reply.{success}
use rzgate.Protocol.Reply.Encoding.{
  encode_prologue, encode_field, encode_fields, Fits, length-encode_prologue, length-encode_field,
  read_prologue-encode_prologue, read_head-encode_field, slice-encode_field,
}
use rzgate.Processor.Request.Layout.{text_field}
use rzgate.Processor.Request.Required.{numbered}
use rzgate.Protocol.Response.{sent_ok}
use rzgate.Processor.RoomList.Listed.{payload_of, length-payload_of}
use rzgate.Processor.DateList.Order.{sort, IsSorted, count, sort-IsSorted, count-sort}
use rzgate.Processor.DateList.{
  push_date, Dates, scan_dates, dates_json, decode_prop_room_date_list_response,
}

-- The dates that are not empty.
abbrev pub filled : List Bytes → List Bytes
filled [] = []
filled ([] ∷ ds) = filled ds
filled ((b ∷ bs) ∷ ds) = (b ∷ bs) ∷ filled ds

push_date-filled :
    (dates : List Bytes) (d : Bytes) (ds : List Bytes)
    → push_date dates d ++ filled ds ≡ dates ++ filled (d ∷ ds)
unfolding push_date
push_date-filled dates [] ds = refl
push_date-filled dates (b ∷ bs) ds =
    rw (==_false (length (b ∷ bs)) 0 (λ e. omega arith))
      (append_assoc dates ((b ∷ bs) ∷ []) (filled ds))

-- One round of the loop, on the expected field.
round :
    (fuel : ℕ) (pre : Bytes) (i : ℕ) (n tail : Bytes) (offset : ℕ) (s : Dates)
    → s.expected_id ≡ i
    → Fits (text_field i n)
    → offset ≡ length pre
    → scan_dates (suc fuel) (pre ++ (encode_field (text_field i n) ++ tail)) offset s
      ≡ scan_dates fuel
          (pre ++ (encode_field (text_field i n) ++ tail))
          (offset + 7 + length n)
          (record { dates = push_date s.dates n; expected_id = (s.expected_id + 1) % 65536 })
unfolding scan_dates
round fuel pre i n tail offset s expected fits at = rw (
  more,
  read_head-encode_field pre (text_field i n) tail fits offset at,
  expected,
  ==_refl i,
  inside,
  slice-encode_field pre (text_field i n) tail fits offset at,
)
  where
    total :
        length (pre ++ (encode_field (text_field i n) ++ tail))
        ≡ length pre + (7 + length n + length tail)
    total = omega (
      arith,
      length-append pre (encode_field (text_field i n) ++ tail),
      length-append (encode_field (text_field i n)) tail,
      length-encode_field (text_field i n),
    )

    more : leb (offset + 7) (length (pre ++ (encode_field (text_field i n) ++ tail))) ≡ true
    more = ground (arith, total)

    inside :
        ltb (length (pre ++ (encode_field (text_field i n) ++ tail))) (offset + 7 + length n)
        ≡ false
    inside = ground (arith, total)

-- Less than a head is left.
last_round :
    (fuel : ℕ) (pre rest : Bytes) (offset : ℕ) (s : Dates)
    → length rest < 7
    → offset ≡ length pre
    → scan_dates (suc fuel) (pre ++ rest) offset s ≡ next s
unfolding scan_dates
last_round fuel pre rest offset s stop at = rw (over)
  where
    over : leb (offset + 7) (length (pre ++ rest)) ≡ false
    over = ground (arith, length-append pre rest)

abbrev dates_of : List Bytes → ℕ → Dates
dates_of ns i = record { dates = ns; expected_id = i }

same_dates : {ns ms : List Bytes} {i j : ℕ} → ns ≡ ms → i ≡ j → dates_of ns i ≡ dates_of ms j
same_dates p q = rw (p, q)

unchanged : (k i : ℕ) → k ≡ i % 65536 → k ≡ (i + 0) % 65536
unchanged k i h = omega arith

scan_dates-payload_of :
    (fuel : ℕ) (pre : Bytes) (i : ℕ) (names : List Bytes) (rest : Bytes) (offset : ℕ) (s : Dates)
    → length names < fuel
    → i + length names ≤ 65536
    → s.expected_id ≡ i % 65536
    → All (λ n. IsU32 (length n)) names
    → length rest < 7
    → offset ≡ length pre
    → scan_dates fuel (payload_of pre i names rest) offset s
      ≡ next (record { dates = s.dates ++ filled names; expected_id = (i + length names) % 65536 })
scan_dates-payload_of zero pre i names rest offset s h few at_id short stop at = elim h [ ]
scan_dates-payload_of (suc fuel) pre i [] rest offset s h few at_id short stop at =
    last_round fuel pre rest offset s stop at
    ∙ ap next (same_dates (sym (append-nil s.dates)) (unchanged s.expected_id i at_id))
scan_dates-payload_of (suc fuel) pre i (n ∷ ns) rest offset s h few at_id short stop at =
    let tail : Bytes = encode_fields (numbered (i + 1) ns) ++ rest in
    let after : Dates = dates_of (push_date s.dates n) ((s.expected_id + 1) % 65536) in
    let field_end : offset + 7 + length n ≡ length (pre ++ encode_field (text_field i n)) = omega (
      arith,
      length-append pre (encode_field (text_field i n)),
      length-encode_field (text_field i n),
    ) in
    ap (λ bytes. scan_dates (suc fuel) bytes offset s)
      (ap (◌++◌ pre)
        (append_assoc (encode_field (text_field i n)) (encode_fields (numbered (i + 1) ns)) rest))
    ∙ round fuel pre i n tail offset s (omega arith)
        (record { id_fits = omega arith; len_fits = short.0 }) at
    ∙ ap (λ bytes. scan_dates fuel bytes (offset + 7 + length n) after)
        (sym (append_assoc pre (encode_field (text_field i n)) tail))
    ∙ scan_dates-payload_of fuel (pre ++ encode_field (text_field i n)) (i + 1) ns rest
        (offset + 7 + length n) after (omega arith) (omega arith) (omega arith) short.1 stop
        field_end
    ∙ ap next (same_dates (push_date-filled s.dates n ns) (omega arith))

decoded :
    (m : Metrics) (names : List Bytes) (rest : Bytes)
    → names ≢ []
    → length names < 65536
    → All (λ n. IsU32 (length n)) names
    → length rest < 7
    → decode_prop_room_date_list_response m
        (payload_of (encode_prologue success (length names)) 1 names rest)
      ≡ next (sent_ok m (dates_json (sort (filled names))))
unfolding decode_prop_room_date_list_response
decoded m names rest nonempty few short stop = rw (
  read_prologue-encode_prologue success (length names) (encode_fields (numbered 1 names) ++ rest)
      few,
  equal_refl success,
  ==_false (length names) 0 (λ e. nonempty (empty names e)),
  scan_dates-payload_of (length bytes) (encode_prologue success (length names)) 1 names rest _
      (dates_of [] 1) enough (omega arith) refl short stop
      (sym (length-encode_prologue success (length names))),
  back,
  ==_refl (length names),
)
  where
    bytes : Bytes
    bytes = payload_of (encode_prologue success (length names)) 1 names rest

    empty : (xs : List Bytes) → length xs ≡ 0 → xs ≡ []
    empty [] e = refl
    empty (x ∷ xs) e = cc

    enough : length names < length bytes
    enough = omega (
      arith,
      length-payload_of (encode_prologue success (length names)) 1 names rest,
      length-encode_prologue success (length names),
    )

    back : ((1 + length names) % 65536 + 65535) % 65536 ≡ length names
    back = omega arith

-- A response that lists dates in the wire format, one after the other, with their number in the
-- field count, is answered by the JSON list of the dates that are not empty, in ascending order and
-- each as often as it stands in the response, and its bytes are counted. Up to
-- six bytes behind the list are not looked at.
pub decode_prop_room_date_list_response-IsSorted :
    (m : Metrics) (names : List Bytes) (rest : Bytes)
    → names ≢ []
    → length names < 65536
    → All (λ n. IsU32 (length n)) names
    → length rest < 7
    → (sorted : List Bytes) × (decode_prop_room_date_list_response m
          (payload_of (encode_prologue success (length names)) 1 names rest)
        ≡ next (sent_ok m (success_with (member (codes "dates") (array (map string sorted)) ∷ []))))
      × IsSorted sorted
      × ((d : Bytes) → count d sorted ≡ count d (filled names))
decode_prop_room_date_list_response-IsSorted m names rest nonempty few short stop = (
  sort (filled names),
  decoded m names rest nonempty few short stop
      ∙ ap (λ json. next (sent_ok m json)) (dates_json-success_with (sort (filled names))),
  sort-IsSorted (filled names),
  λ d. count-sort d (filled names),
)
