-- ===== src/Processor/SearchProp/Listed.antt =====
-- What the decoder of SEARCHPROP answers to a list of property ids in the wire format.
use rzgate.Document.{success_with, error_document, member, array, string}
use rzgate.Document.Answers.{error_json-error_document, properties_json-success_with}
use rzgate.Prelude.{
  ◌∙◌, ap, ◌==◌, if◌then◌else◌, ℕ, ◌+◌, ◌≤◌, ◌<◌, ◌≡◌, refl, sym, false, ltb, ==_refl, ==_false,
  List, [], ◌∷◌, ◌++◌, map, All, append_assoc, length, length-append, arith, equal_refl,
}
use mathlib.Core.Path.{subst}
use rzgate.Bytes.{Bytes, codes, IsU32}
use rzgate.Flow.{next}
use rzgate.Metrics.{Metrics}
use rzgate.Http.{Response, json_response, status_ok, bad_request}
use rzgate.Render.{quoted_list}
use rzgate.Protocol.Reply.{success}
use rzgate.Protocol.Reply.Encoding.{
  encode_prologue, encode_field, encode_fields, Fits, length-encode_prologue, length-encode_field,
  read_prologue-encode_prologue, read_head-encode_field, slice-encode_field,
}
use rzgate.Protocol.Response.{error_json}
use rzgate.Helper.PropertyId.{bytes_to_property_id}
use rzgate.Processor.Request.Layout.{text_field}
use rzgate.Processor.Request.Required.{numbered}
use rzgate.Processor.RoomList.Listed.{payload_of, next_payload}
use rzgate.Processor.SearchProp.{
  or_unknown, read_text_field, read_properties, decode_search_prop_response,
}

-- The message of a single id.
abbrev message_of : Bytes → Bytes
message_of id = if length id == 0 then codes "UNKNOWN_ERROR" else id

-- The answer for two ids or more is their list; a single one is taken for the message of an error.
abbrev pub answer_of : (Bytes → Bytes) → Metrics → Bytes → List Bytes → Response × Metrics
answer_of uuid_to_string m first [] =
    (json_response bad_request (error_document (message_of first)), m)
answer_of uuid_to_string m first (second ∷ more) = (
  json_response status_ok (
      success_with (
        member (codes "properties")
          (array (map string (map (bytes_to_property_id uuid_to_string) (first ∷ second ∷ more))))
        ∷ [])),
  m,
)

-- What the code writes for it.
abbrev written_answer : (Bytes → Bytes) → Metrics → Bytes → List Bytes → Response × Metrics
written_answer uuid_to_string m first [] =
    (json_response bad_request (error_json (or_unknown first)), m)
written_answer uuid_to_string m first (second ∷ more) = (
  json_response status_ok (
      codes "{\"status\":\"success\",\"properties\":["
      ++ (quoted_list (map (bytes_to_property_id uuid_to_string) (first ∷ second ∷ more))
          ++ codes "]}")),
  m,
)

or_unknown-message_of : (id : Bytes) → or_unknown id ≡ message_of id
or_unknown-message_of [] = refl
or_unknown-message_of (b ∷ bs) = rw (==_false (length (b ∷ bs)) 0 (λ e. omega arith)) refl

written_answer-answer_of :
    (uuid_to_string : Bytes → Bytes) (m : Metrics) (first : Bytes) (more : List Bytes)
    → written_answer uuid_to_string m first more ≡ answer_of uuid_to_string m first more
written_answer-answer_of uuid_to_string m first [] =
    ap (λ json. (json_response bad_request json, m))
      (error_json-error_document (or_unknown first)
        ∙ ap error_document (or_unknown-message_of first))
written_answer-answer_of uuid_to_string m first (second ∷ more) =
    ap (λ json. (json_response status_ok json, m))
      (properties_json-success_with
        (map (bytes_to_property_id uuid_to_string) (first ∷ second ∷ more)))

read_text_field-encode_field :
    (pre : Bytes) (i : ℕ) (s rest : Bytes) (offset : ℕ)
    → offset ≡ length pre
    → Fits (text_field i s)
    → read_text_field (pre ++ (encode_field (text_field i s) ++ rest)) i offset
      ≡ next (s, offset + 7 + length s)
unfolding read_text_field
read_text_field-encode_field pre i s rest offset at fits = rw (
  long,
  read_head-encode_field pre (text_field i s) rest fits offset at,
  ==_refl i,
  inside,
  slice-encode_field pre (text_field i s) rest fits offset at,
)
  where
    total :
        length (pre ++ (encode_field (text_field i s) ++ rest))
        ≡ length pre + (7 + length s + length rest)
    total = omega (
      arith,
      length-append pre (encode_field (text_field i s) ++ rest),
      length-append (encode_field (text_field i s)) rest,
      length-encode_field (text_field i s),
    )

    long : ltb (length (pre ++ (encode_field (text_field i s) ++ rest))) (offset + 7) ≡ false
    long = ground (arith, total)

    inside :
        ltb (length (pre ++ (encode_field (text_field i s) ++ rest))) (offset + 7 + length s)
        ≡ false
    inside = ground (arith, total)

module _ (uuid_to_string : Bytes → Bytes) where
  read_properties-payload_of :
      (pre : Bytes) (i : ℕ) (ids : List Bytes) (rest : Bytes) (offset : ℕ)
      → i + length ids ≤ 65536
      → All (λ s. IsU32 (length s)) ids
      → offset ≡ length pre
      → read_properties uuid_to_string (length ids) (payload_of pre i ids rest) i offset
        ≡ next (map (bytes_to_property_id uuid_to_string) ids)
  unfolding read_properties
  read_properties-payload_of pre i [] rest offset few short at = refl
  read_properties-payload_of pre i (s ∷ ss) rest offset few short at =
      rw
        (
          shape,
          read_text_field-encode_field pre i s tail offset at
              (record { id_fits = omega arith; len_fits = short.0 }),
          ← shape,
          next_payload pre i s ss rest,
        )
        (rw (
          read_properties-payload_of (pre ++ encode_field (text_field i s)) (i + 1) ss rest
            (offset + 7 + length s) (omega arith) short.1
            (omega (
              arith,
              length-append pre (encode_field (text_field i s)),
              length-encode_field (text_field i s),
            ))))
    where
      tail : Bytes
      tail = encode_fields (numbered (i + 1) ss) ++ rest

      shape : payload_of pre i (s ∷ ss) rest ≡ pre ++ (encode_field (text_field i s) ++ tail)
      shape = simp append_assoc

  decoded :
      (m : Metrics) (first : Bytes) (more : List Bytes) (rest : Bytes)
      → 1 + length more < 65536
      → All (λ s. IsU32 (length s)) (first ∷ more)
      → decode_search_prop_response uuid_to_string m
          (payload_of (encode_prologue success (1 + length more)) 1 (first ∷ more) rest)
        ≡ next (written_answer uuid_to_string m first more)
  unfolding decode_search_prop_response
  decoded m first [] rest few short = rw (
    read_prologue-encode_prologue success 1 (encode_fields (numbered 1 (first ∷ [])) ++ rest) few,
    equal_refl success,
    read,
  )
    where
      read :
          read_text_field
            (payload_of (encode_prologue success 1) 1 (first ∷ []) rest)
            1
            (1 + length success + 2)
          ≡ next (first, 1 + length success + 2 + 7 + length first)
      read =
          subst
            (λ bytes.
              read_text_field (encode_prologue success 1 ++ bytes) 1 (1 + length success + 2)
              ≡ next (first, 1 + length success + 2 + 7 + length first))
            (sym (append_assoc (encode_field (text_field 1 first)) [] rest))
            (read_text_field-encode_field (encode_prologue success 1) 1 first rest
              (1 + length success + 2) (sym (length-encode_prologue success 1))
              (record { id_fits = omega arith; len_fits = short.0 }))
  decoded m first (second ∷ more) rest few short = rw (
    read_prologue-encode_prologue success n
        (encode_fields (numbered 1 (first ∷ second ∷ more)) ++ rest) few,
    equal_refl success,
    ==_false n 0 (λ e. omega arith),
    ==_false n 1 (λ e. omega arith),
    read,
  )
    where
      n : ℕ
      n = 1 + length (second ∷ more)

      read :
          read_properties uuid_to_string n
            (payload_of (encode_prologue success n) 1 (first ∷ second ∷ more) rest)
            1
            (1 + length success + 2)
          ≡ next (map (bytes_to_property_id uuid_to_string) (first ∷ second ∷ more))
      read =
          subst
            (λ left.
              read_properties uuid_to_string left
                (payload_of (encode_prologue success n) 1 (first ∷ second ∷ more) rest) 1
                (1 + length success + 2)
              ≡ next (map (bytes_to_property_id uuid_to_string) (first ∷ second ∷ more)))
            {x = length (first ∷ second ∷ more)} (omega arith)
            (read_properties-payload_of (encode_prologue success n) 1 (first ∷ second ∷ more) rest
              (1 + length success + 2) (omega arith) short (sym (length-encode_prologue success n)))

  -- A response that lists property ids in the wire format, one after the other, with their number in the
  -- field count, is answered by the JSON list of the ids' texts in the same order if it holds
  -- two ids or more; a single id is answered by 400, with the id's bytes as the message. Nothing behind
  -- the list is looked at, and the counters stay as they are.
  pub decode_search_prop_response-ids :
      (m : Metrics) (first : Bytes) (more : List Bytes) (rest : Bytes)
      → 1 + length more < 65536
      → All (λ s. IsU32 (length s)) (first ∷ more)
      → decode_search_prop_response uuid_to_string m
          (payload_of (encode_prologue success (1 + length more)) 1 (first ∷ more) rest)
        ≡ next (answer_of uuid_to_string m first more)
  decode_search_prop_response-ids m first more rest few short =
      decoded m first more rest few short
      ∙ ap next (written_answer-answer_of uuid_to_string m first more)
