-- ===== src/Processor/Codecs/Listed.antt =====
-- What the decoder of GETCODECS makes of a payload, and of a list of names in the wire format.
use rzgate.Prelude.{
  ℕ, ◌+◌, ◌≡◌, refl, ◌==◌, not, Bool, true, false, ltb, List, [], ◌∷◌, ◌++◌, All, length,
  length-append, append_assoc, arith, inl, inr, Option-cases, equal, equal_refl, if◌then◌else◌,
}
use rzgate.Bytes.{Bytes, IsU32}
use rzgate.Utf8.{is_utf8, from_utf8}
use rzgate.Flow.{Flow, next, index, slice, read_u16}
use rzgate.Flow.Rules.{index_lt, read_u16_lt, slice_le}
use rzgate.Flow.Append.{slice-append}
use rzgate.RzError.{Result, ok}
use rzgate.Protocol.{Field, Codecs}
use rzgate.Protocol.Reply.{success}
use rzgate.Protocol.Reply.Ends.{read_head_lt}
use rzgate.Protocol.Reply.Encoding.{
  encode_prologue, encode_field, Fits, length-encode_prologue, length-encode_field,
  read_head-encode_field, slice-encode_field,
}
use rzgate.Protocol.Response.Ends.{extract_error_message_total}
use rzgate.Processor.SetProp.{join}
use rzgate.Processor.Codecs.Split.{IsName, split_comma-join, trimmed_names_lem}
use rzgate.Processor.Codecs.{refuse, read_codecs, read_codecs_field, decode_get_codecs_response}

-- The flow gives a value.
abbrev pub IsTotal : Flow (Result Codecs) → Type 0
IsTotal m = (r : Result Codecs) × (m ≡ next r)

IsTotal-if :
    (b : Bool) (m n : Flow (Result Codecs))
    → (b ≡ true → IsTotal m)
    → (b ≡ false → IsTotal n)
    → IsTotal (if b then m else n)
IsTotal-if true m n h k = h refl
IsTotal-if false m n h k = k refl

read_codecs-IsTotal :
    (field_type : ℕ) (field_data : Bytes) → IsTotal (read_codecs field_type field_data)
unfolding read_codecs
read_codecs-IsTotal field_type field_data =
    IsTotal-if (field_type == 0x01) _ _
      (λ _. elim (Option-cases (from_utf8 field_data)) [
        | inl e ↦ rw e (_, refl)
        | inr (t, e) ↦ rw e (_, refl)
      ])
      λ _.
        IsTotal-if (not (field_type == 0x09)) _ _ (λ _. (_, refl))
          λ _. elim (Option-cases (from_utf8 field_data)) [
            | inl e ↦ rw e (_, refl)
            | inr (t, e) ↦ rw e (_, refl)
          ]

read_codecs_field-IsTotal : (bytes : Bytes) (offset : ℕ) → IsTotal (read_codecs_field bytes offset)
unfolding read_codecs_field
read_codecs_field-IsTotal bytes offset =
    IsTotal-if (ltb (length bytes) (offset + 7)) _ _ (λ _. (_, refl))
      λ long.
        let (head, e) = read_head_lt bytes offset (ground arith) in
        rw e (
          IsTotal-if (not (head.id == 1)) _ _ (λ _. (_, refl))
            λ _.
              IsTotal-if (ltb (length bytes) (offset + 7 + head.len)) _ _ (λ _. (_, refl))
                λ inside.
                  let (s, e2, _) =
                    slice_le bytes (offset + 7) (offset + 7 + head.len) (omega arith)
                      (ground arith) in
                  rw e2 (read_codecs-IsTotal head.field_type s))

-- `decode_get_codecs_response` gives codecs or an error for every payload: no index and no slice is
-- out of bounds.
pub decode_get_codecs_response-IsTotal :
    (bytes : Bytes) → IsTotal (decode_get_codecs_response bytes)
unfolding decode_get_codecs_response
decode_get_codecs_response-IsTotal bytes =
    IsTotal-if (length bytes == 0) _ _ (λ _. (_, refl))
      λ filled.
        let (n, e) = index_lt bytes 0 (ground arith) in
        rw e (
          IsTotal-if (ltb (length bytes) (1 + n + 2)) _ _ (λ _. (_, refl))
            λ long.
              let (s, e2, _) = slice_le bytes 1 (1 + n) (omega arith) (ground arith) in
              let (c, e3) = read_u16_lt bytes (1 + n) (ground arith) in
              let (msg, e4) = extract_error_message_total bytes c (1 + n + 2) in
              rw (e2, e3)
                (IsTotal-if (not (equal s success)) _ _ (λ _. rw e4 (refuse msg, refl))
                  λ _.
                    IsTotal-if (not (c == 1)) _ _ (λ _. (_, refl))
                      λ _. read_codecs_field-IsTotal bytes (1 + n + 2)))

abbrev pub names_field : List Bytes → Field
names_field names = record { id = 1; field_type = 0x09; payload = join names }

abbrev pub codecs_payload : List Bytes → Bytes → Bytes
codecs_payload names rest = encode_prologue success 1 ++ (encode_field (names_field names) ++ rest)

module _ (s : Bytes) (ss : List Bytes) (rest : Bytes) (names : All IsName (s ∷ ss))
    (text : is_utf8 (join (s ∷ ss)) ≡ true) (short : IsU32 (length (join (s ∷ ss)))) where
  abbrev bytes : Bytes
  bytes = codecs_payload (s ∷ ss) rest

  fits : Fits (names_field (s ∷ ss))
  fits = record { id_fits = omega arith; len_fits = short }

  total : length bytes ≡ 10 + 7 + length (join (s ∷ ss)) + length rest
  total = omega (
    arith,
    length-append (encode_prologue success 1) (encode_field (names_field (s ∷ ss)) ++ rest),
    length-append (encode_field (names_field (s ∷ ss))) rest,
    length-encode_prologue success 1,
    length-encode_field (names_field (s ∷ ss)),
  )

  read_codecs-names : read_codecs 9 (join (s ∷ ss)) ≡ next (ok (record { rate_features = s ∷ ss }))
  unfolding read_codecs from_utf8
  read_codecs-names = rw (text, split_comma-join s ss names, trimmed_names_lem (s ∷ ss) names)

  read_codecs_field-names :
      read_codecs_field bytes 10 ≡ next (ok (record { rate_features = s ∷ ss }))
  unfolding read_codecs_field
  read_codecs_field-names =
      rw
        (
          long,
          read_head-encode_field (encode_prologue success 1) (names_field (s ∷ ss)) rest fits 10 at,
          inside,
          slice-encode_field (encode_prologue success 1) (names_field (s ∷ ss)) rest fits 10 at,
        )
        read_codecs-names
    where
      at : 10 ≡ length (encode_prologue success 1)
      at = omega (arith, length-encode_prologue success 1)

      long : ltb (length bytes) 17 ≡ false
      long = ground (arith, total)

      inside : ltb (length bytes) (17 + length (join (s ∷ ss))) ≡ false
      inside = ground (arith, total)

  -- A SUCCESS response whose one field carries names with commas between them is decoded to these names,
  -- in their order. The names are not empty, hold no comma and no white space at their
  -- ends; the text is valid UTF-8 and its length fits four bytes.
  pub decode_get_codecs_response-names :
      decode_get_codecs_response bytes ≡ next (ok (record { rate_features = s ∷ ss }))
  unfolding decode_get_codecs_response
  decode_get_codecs_response-names =
      rw (filled, first, long, status_read, count_read, equal_refl success) read_codecs_field-names
    where
      filled : (length bytes == 0) ≡ false
      filled = ground (arith, total)

      first : index bytes 0 ≡ next 7
      first = unfold index encode_prologue in refl

      long : ltb (length bytes) 10 ≡ false
      long = ground (arith, total)

      status_read : slice bytes 1 8 ≡ next success
      status_read =
          unfold encode_prologue in
          rw append_assoc (
            slice-append (7 ∷ []) success (1 ∷ 0 ∷ encode_field (names_field (s ∷ ss)) ++ rest) 1 8
              refl refl)

      count_read : read_u16 bytes 8 ≡ next 1
      count_read = unfold encode_prologue read_u16 index in refl
