-- ===== src/Processor/RoomList/Listed.antt =====
-- What the decoder of PROPROOMLIST answers to a list of room types in the wire format.
use rzgate.Document.{success_with, member, array, string}
use rzgate.Document.Answers.{names_json-success_with}
use rzgate.Prelude.{
  ℕ, zero, suc, ◌+◌, ◌%◌, ◌≤◌, ◌<◌, ◌≡◌, ◌≢◌, refl, sym, ap, ◌∙◌, true, false, leb, ltb, ==_refl,
  ==_false, List, [], ◌∷◌, ◌++◌, map, All, append_assoc, append-nil, length, length-append, arith,
  equal_refl,
}
use rzgate.Bytes.{Bytes, IsU32, codes}
use rzgate.Utf8.{from_utf8_lossy}
use rzgate.Flow.{next}
use rzgate.Metrics.{Metrics}
use rzgate.Http.{json_response, status_ok}
use rzgate.Protocol.Reply.{success}
use rzgate.Protocol.Reply.Encoding.{
  encode_prologue, encode_field, encode_fields, Fits, length-encode_prologue, length-encode_field,
  read_prologue-encode_prologue, read_head-encode_field, slice-encode_field,
}
use rzgate.Processor.Request.Layout.{text_field}
use rzgate.Processor.Request.Required.{numbered}
use rzgate.Processor.RoomList.{Names, scan_names, names_json, decode_prop_room_list_response}

-- A list of room types, and a rest that is too short for the head of a field.
abbrev pub payload_of : Bytes → ℕ → List Bytes → Bytes → Bytes
payload_of pre i names rest = pre ++ (encode_fields (numbered i names) ++ rest)

pub next_payload :
    (pre : Bytes) (i : ℕ) (s : Bytes) (ss : List Bytes) (rest : Bytes)
    → payload_of pre i (s ∷ ss) rest
      ≡ payload_of (pre ++ encode_field (text_field i s)) (i + 1) ss rest
next_payload pre i s ss rest = simp append_assoc

pub length-payload_of :
    (pre : Bytes) (i : ℕ) (names : List Bytes) (rest : Bytes)
    → length pre + length names + length rest ≤ length (payload_of pre i names rest)
length-payload_of pre i [] rest = omega (arith, length-append pre rest)
length-payload_of pre i (s ∷ ss) rest = rw (next_payload pre i s ss rest) (
    omega (
      arith,
      length-payload_of (pre ++ encode_field (text_field i s)) (i + 1) ss rest,
      length-append pre (encode_field (text_field i s)),
      length-encode_field (text_field i s),
    ))

-- One round of the loop, on the expected field.
round :
    (fuel : ℕ) (pre : Bytes) (i : ℕ) (n tail : Bytes) (offset : ℕ) (s : Names)
    → s.expected_id ≡ i
    → Fits (text_field i n)
    → offset ≡ length pre
    → scan_names (suc fuel) (pre ++ (encode_field (text_field i n) ++ tail)) offset s
      ≡ scan_names fuel
          (pre ++ (encode_field (text_field i n) ++ tail))
          (offset + 7 + length n)
          (record {
            room_types = s.room_types ++ (from_utf8_lossy n ∷ []);
            expected_id = (s.expected_id + 1) % 65536;
          })
unfolding scan_names
round fuel pre i n tail offset s expected fits at = rw (
  more,
  read_head-encode_field pre (text_field i n) tail fits offset at,
  expected,
  ==_refl i,
  inside,
  slice-encode_field pre (text_field i n) tail fits offset at,
)
  where
    total :
        length (pre ++ (encode_field (text_field i n) ++ tail))
        ≡ length pre + (7 + length n + length tail)
    total = omega (
      arith,
      length-append pre (encode_field (text_field i n) ++ tail),
      length-append (encode_field (text_field i n)) tail,
      length-encode_field (text_field i n),
    )

    more : leb (offset + 7) (length (pre ++ (encode_field (text_field i n) ++ tail))) ≡ true
    more = ground (arith, total)

    inside :
        ltb (length (pre ++ (encode_field (text_field i n) ++ tail))) (offset + 7 + length n)
        ≡ false
    inside = ground (arith, total)

-- Less than a head is left.
last_round :
    (fuel : ℕ) (pre rest : Bytes) (offset : ℕ) (s : Names)
    → length rest < 7
    → offset ≡ length pre
    → scan_names (suc fuel) (pre ++ rest) offset s ≡ next s
unfolding scan_names
last_round fuel pre rest offset s stop at = rw (over)
  where
    over : leb (offset + 7) (length (pre ++ rest)) ≡ false
    over = ground (arith, length-append pre rest)

abbrev names_of : List Bytes → ℕ → Names
names_of ns i = record { room_types = ns; expected_id = i }

same_names : {ns ms : List Bytes} {i j : ℕ} → ns ≡ ms → i ≡ j → names_of ns i ≡ names_of ms j
same_names p q = rw (p, q)

unchanged : (k i : ℕ) → k ≡ i % 65536 → k ≡ (i + 0) % 65536
unchanged k i h = omega arith

scan_names-payload_of :
    (fuel : ℕ) (pre : Bytes) (i : ℕ) (names : List Bytes) (rest : Bytes) (offset : ℕ) (s : Names)
    → length names < fuel
    → i + length names ≤ 65536
    → s.expected_id ≡ i % 65536
    → All (λ n. IsU32 (length n)) names
    → length rest < 7
    → offset ≡ length pre
    → scan_names fuel (payload_of pre i names rest) offset s
      ≡ next (record {
        room_types = s.room_types ++ map from_utf8_lossy names;
        expected_id = (i + length names) % 65536;
      })
scan_names-payload_of zero pre i names rest offset s h few at_id short stop at = elim h [ ]
scan_names-payload_of (suc fuel) pre i [] rest offset s h few at_id short stop at =
    last_round fuel pre rest offset s stop at
    ∙ ap next (same_names (sym (append-nil s.room_types)) (unchanged s.expected_id i at_id))
scan_names-payload_of (suc fuel) pre i (n ∷ ns) rest offset s h few at_id short stop at =
    let tail : Bytes = encode_fields (numbered (i + 1) ns) ++ rest in
    let after : Names =
      names_of (s.room_types ++ (from_utf8_lossy n ∷ [])) ((s.expected_id + 1) % 65536) in
    let field_end : offset + 7 + length n ≡ length (pre ++ encode_field (text_field i n)) = omega (
      arith,
      length-append pre (encode_field (text_field i n)),
      length-encode_field (text_field i n),
    ) in
    ap (λ bytes. scan_names (suc fuel) bytes offset s)
      (ap (◌++◌ pre)
        (append_assoc (encode_field (text_field i n)) (encode_fields (numbered (i + 1) ns)) rest))
    ∙ round fuel pre i n tail offset s (omega arith)
        (record { id_fits = omega arith; len_fits = short.0 }) at
    ∙ ap (λ bytes. scan_names fuel bytes (offset + 7 + length n) after)
        (sym (append_assoc pre (encode_field (text_field i n)) tail))
    ∙ scan_names-payload_of fuel (pre ++ encode_field (text_field i n)) (i + 1) ns rest
        (offset + 7 + length n) after (omega arith) (omega arith) (omega arith) short.1 stop
        field_end
    ∙ ap next (
        same_names (append_assoc s.room_types (from_utf8_lossy n ∷ []) (map from_utf8_lossy ns))
          (omega arith))

decoded :
    (m : Metrics) (names : List Bytes) (rest : Bytes)
    → names ≢ []
    → length names < 65536
    → All (λ n. IsU32 (length n)) names
    → length rest < 7
    → decode_prop_room_list_response m
        (payload_of (encode_prologue success (length names)) 1 names rest)
      ≡ next (json_response status_ok (names_json (map from_utf8_lossy names)), m)
unfolding decode_prop_room_list_response
decoded m names rest nonempty few short stop = rw (
  read_prologue-encode_prologue success (length names) (encode_fields (numbered 1 names) ++ rest)
      few,
  equal_refl success,
  ==_false (length names) 0 (λ e. nonempty (empty names e)),
  scan_names-payload_of (length bytes) (encode_prologue success (length names)) 1 names rest _
      (names_of [] 1) enough (omega arith) refl short stop
      (sym (length-encode_prologue success (length names))),
  back,
  ==_refl (length names),
)
  where
    bytes : Bytes
    bytes = payload_of (encode_prologue success (length names)) 1 names rest

    empty : (xs : List Bytes) → length xs ≡ 0 → xs ≡ []
    empty [] e = refl
    empty (x ∷ xs) e = cc

    enough : length names < length bytes
    enough = omega (
      arith,
      length-payload_of (encode_prologue success (length names)) 1 names rest,
      length-encode_prologue success (length names),
    )

    back : ((1 + length names) % 65536 + 65535) % 65536 ≡ length names
    back = omega arith

-- A response that lists the room types in the wire format, one after the other, with their number in
-- the field count, is answered by the JSON list of the same names in the same order. Up to six bytes
-- behind the list are not looked at, and the bytes sent are not counted.
pub decode_prop_room_list_response-names :
    (m : Metrics) (names : List Bytes) (rest : Bytes)
    → names ≢ []
    → length names < 65536
    → All (λ n. IsU32 (length n)) names
    → length rest < 7
    → decode_prop_room_list_response m
        (payload_of (encode_prologue success (length names)) 1 names rest)
      ≡ next (
        json_response status_ok (
            success_with
              (member (codes "room_types") (array (map string (map from_utf8_lossy names))) ∷ [])),
        m,
      )
decode_prop_room_list_response-names m names rest nonempty few short stop =
    decoded m names rest nonempty few short stop
    ∙ ap (λ json. next (json_response status_ok json, m))
        (names_json-success_with (map from_utf8_lossy names))
