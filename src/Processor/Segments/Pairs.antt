-- ===== src/Processor/Segments/Pairs.antt =====
-- Two rounds of the decoder of GETSEGMENTS: one segment in the wire format.
use rzgate.Prelude.{
  ℕ, suc, ◌+◌, ◌%◌, ◌<◌, ◌≡◌, refl, ap, ◌∙◌, true, false, leb, ltb, ==_refl, none, some, List, [],
  ◌∷◌, ◌++◌, append_assoc, length, length-append, arith,
}
use rzgate.Bytes.{Bytes, IsU32, u32_le}
use rzgate.Flow.{next, read_u32}
use rzgate.Flow.Append.{read_u32-u32_le}
use rzgate.Protocol.{Field}
use rzgate.Protocol.Reply.{Head}
use rzgate.Protocol.Reply.Encoding.{
  encode_field, encode_fields, Fits, length-encode_field, read_head-encode_field,
  slice-encode_field,
}
use rzgate.Processor.Request.Layout.{text_field}
use rzgate.Processor.Segments.{Segment, set_last, take_field, Seen, scan_segments}

abbrev pub count_field : ℕ → ℕ → Field
count_field id n = record { id = id; field_type = 0x03; payload = u32_le n }

-- Each segment as two fields, numbered from `i` on.
abbrev pub pair_fields : ℕ → List (Bytes × ℕ) → List Field
pair_fields i [] = []
pair_fields i ((name, n) ∷ ps) = text_field i name ∷ count_field (i + 1) n ∷ pair_fields (i + 2) ps

-- The number and the name of a segment fit the wire format.
abbrev pub IsSized : Bytes × ℕ → Type 0
IsSized (name, n) = IsU32 (length name) × IsU32 n

abbrev pub pair_payload : Bytes → ℕ → List (Bytes × ℕ) → Bytes → Bytes
pair_payload pre i ps rest = pre ++ (encode_fields (pair_fields i ps) ++ rest)

abbrev head_of : Field → Head
head_of f = record { id = f.id; field_type = f.field_type; len = length f.payload }

abbrev pub seen : List Segment → ℕ → Seen
seen ss i = record { segments = ss; expected_id = i }

-- One round of the loop, on the expected field.
round :
    (fuel : ℕ) (pre : Bytes) (f : Field) (tail : Bytes) (offset : ℕ) (ss after : List Segment)
    → Fits f
    → offset ≡ length pre
    → take_field f.id (head_of f) f.payload ss ≡ next after
    → scan_segments (suc fuel) (pre ++ (encode_field f ++ tail)) offset (seen ss f.id)
      ≡ scan_segments fuel
          (pre ++ (encode_field f ++ tail))
          (offset + 7 + length f.payload)
          (seen after ((f.id + 1) % 65536))
unfolding scan_segments
round fuel pre f tail offset ss after fits at taken = rw (
  more,
  read_head-encode_field pre f tail fits offset at,
  ==_refl f.id,
  inside,
  slice-encode_field pre f tail fits offset at,
  taken,
)
  where
    total :
        length (pre ++ (encode_field f ++ tail)) ≡ length pre + (7 + length f.payload + length tail)
    total = omega (
      arith,
      length-append pre (encode_field f ++ tail),
      length-append (encode_field f) tail,
      length-encode_field f,
    )

    more : leb (offset + 7) (length (pre ++ (encode_field f ++ tail))) ≡ true
    more = ground (arith, total)

    inside : ltb (length (pre ++ (encode_field f ++ tail))) (offset + 7 + length f.payload) ≡ false
    inside = ground (arith, total)

-- Less than a head is left.
pub last_round :
    (fuel : ℕ) (pre rest : Bytes) (offset : ℕ) (s : Seen)
    → length rest < 7
    → offset ≡ length pre
    → scan_segments (suc fuel) (pre ++ rest) offset s ≡ next s
unfolding scan_segments
last_round fuel pre rest offset s stop at = rw over
  where
    over : leb (offset + 7) (length (pre ++ rest)) ≡ false
    over = ground (arith, length-append pre rest)

set_last-append :
    (ss : List Segment) (name : Bytes) (n : ℕ)
    → set_last (ss ++ ((name, none) ∷ [])) n ≡ next (ss ++ ((name, some n) ∷ []))
unfolding set_last
set_last-append [] name n = refl
set_last-append (s ∷ []) name n = refl
set_last-append (s ∷ t ∷ ss) name n = rw (set_last-append (t ∷ ss) name n)

take_name :
    (i : ℕ) (name : Bytes) (ss : List Segment)
    → i % 2 ≡ 1
    → take_field i (head_of (text_field i name)) name ss ≡ next (ss ++ ((name, none) ∷ []))
unfolding take_field
take_name i name ss odd = rw odd

take_count :
    (i : ℕ) (name : Bytes) (n : ℕ) (ss : List Segment)
    → i % 2 ≡ 1
    → IsU32 n
    → take_field (i + 1) (head_of (count_field (i + 1) n)) (u32_le n) (ss ++ ((name, none) ∷ []))
      ≡ next (ss ++ ((name, some n) ∷ []))
unfolding take_field
take_count i name n ss odd h = rw (even, read) (set_last-append ss name n)
  where
    even : (i + 1) % 2 ≡ 0
    even = omega arith

    read : read_u32 (u32_le n) 0 ≡ next n
    read = read_u32-u32_le n [] h

same_scan :
    (fuel : ℕ) (bytes bytes2 : Bytes) (o o2 : ℕ) (ss : List Segment) (i j : ℕ)
    → bytes ≡ bytes2
    → o ≡ o2
    → i ≡ j
    → scan_segments fuel bytes o (seen ss i) ≡ scan_segments fuel bytes2 o2 (seen ss j)
same_scan fuel bytes bytes2 o o2 ss i j p q r = rw (p, q, r)

-- Two rounds: a segment.
pub pair :
    (fuel : ℕ) (pre : Bytes) (i : ℕ) (name : Bytes) (n : ℕ) (ps : List (Bytes × ℕ)) (rest : Bytes)
    (offset : ℕ) (ss : List Segment)
    → i % 2 ≡ 1
    → i + 2 < 65536
    → IsSized (name, n)
    → offset ≡ length pre
    → scan_segments (suc (suc fuel)) (pair_payload pre i ((name, n) ∷ ps) rest) offset (seen ss i)
      ≡ scan_segments fuel
          (pair_payload
            ((pre ++ encode_field (text_field i name)) ++ encode_field (count_field (i + 1) n))
            (i + 2)
            ps
            rest)
          (offset + 7 + length name + 11)
          (seen (ss ++ ((name, some n) ∷ [])) (i + 2))
pair fuel pre i name n ps rest offset ss odd few sized at =
    ap (λ bytes. scan_segments (suc (suc fuel)) bytes offset (seen ss i)) shape1
    ∙ round (suc fuel) pre (text_field i name) tail1 offset ss (ss ++ ((name, none) ∷ []))
        (record { id_fits = omega arith; len_fits = sized.0 }) at (take_name i name ss odd)
    ∙ ap
        (λ k.
          scan_segments (suc fuel) (pre ++ (encode_field (text_field i name) ++ tail1))
            (offset + 7 + length name) (seen (ss ++ ((name, none) ∷ [])) k))
        next_id
    ∙ ap
        (λ bytes.
          scan_segments (suc fuel) bytes (offset + 7 + length name)
            (seen (ss ++ ((name, none) ∷ [])) (i + 1)))
        shape2
    ∙ round fuel (pre ++ encode_field (text_field i name)) (count_field (i + 1) n) tail2
        (offset + 7 + length name) (ss ++ ((name, none) ∷ [])) (ss ++ ((name, some n) ∷ []))
        (record { id_fits = omega arith; len_fits = omega arith })
        (omega (
          arith,
          length-append pre (encode_field (text_field i name)),
          length-encode_field (text_field i name),
        ))
        (take_count i name n ss odd sized.1)
    ∙ same_scan fuel _ _ _ _ (ss ++ ((name, some n) ∷ [])) _ _ shape3 (omega arith) (omega arith)
  where
    tail2 : Bytes
    tail2 = encode_fields (pair_fields (i + 2) ps) ++ rest

    tail1 : Bytes
    tail1 = encode_field (count_field (i + 1) n) ++ tail2

    next_id : (i + 1) % 65536 ≡ i + 1
    next_id = omega arith

    shape1 :
        pair_payload pre i ((name, n) ∷ ps) rest
        ≡ pre ++ (encode_field (text_field i name) ++ tail1)
    shape1 = simp append_assoc

    shape3 :
        (pre ++ encode_field (text_field i name)) ++ (encode_field (count_field (i + 1) n) ++ tail2)
        ≡ pair_payload
            ((pre ++ encode_field (text_field i name)) ++ encode_field (count_field (i + 1) n))
            (i + 2)
            ps
            rest
    shape3 = simp append_assoc

    shape2 :
        pre ++ (encode_field (text_field i name) ++ tail1)
        ≡ (pre ++ encode_field (text_field i name)) ++ tail1
    shape2 = simp append_assoc
