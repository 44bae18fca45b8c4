-- ===== src/Processor/Segments/Listed.antt =====
-- What the decoder of GETSEGMENTS answers to a list of segments in the wire format.
use rzgate.Document.{success_with, member, array}
use rzgate.Document.Answers.{segment_object, segments_json-success_with}
use rzgate.Prelude.{
  ap, ℕ, zero, suc, ◌+◌, ◌*◌, ◌%◌, ◌≤◌, ◌<◌, ◌≡◌, ◌≢◌, refl, sym, ◌∙◌, ==_refl, ==_false, some,
  List, [], ◌∷◌, ◌++◌, map, All, append_assoc, append-nil, length, length-append, arith, equal_refl,
}
use rzgate.Bytes.{Bytes, codes}
use rzgate.Flow.{next}
use rzgate.Metrics.{Metrics}
use rzgate.Protocol.Reply.{success}
use rzgate.Protocol.Reply.Encoding.{
  encode_prologue, encode_field, encode_fields, length-encode_prologue, length-encode_field,
  read_prologue-encode_prologue,
}
use rzgate.Protocol.Response.{sent_ok}
use rzgate.Processor.Request.Layout.{text_field}
use rzgate.Processor.Segments.{
  Segment, scan_segments, segment_json, segment_jsons, segments_json, decode_get_segments_response,
}
use rzgate.Processor.Segments.Pairs.{
  count_field, pair_fields, IsSized, pair_payload, seen, last_round, pair,
}

same_seen : {ss ts : List Segment} {i j : ℕ} → ss ≡ ts → i ≡ j → next (seen ss i) ≡ next (seen ts j)
same_seen p q = rw (p, q)

length-pair_payload :
    (pre : Bytes) (i : ℕ) (ps : List (Bytes × ℕ)) (rest : Bytes)
    → length pre + 2 * length ps + length rest ≤ length (pair_payload pre i ps rest)
length-pair_payload pre i [] rest = omega (arith, length-append pre rest)
length-pair_payload pre i ((name, n) ∷ ps) rest = rw shape (
    omega (
      arith,
      length-pair_payload
          ((pre ++ encode_field (text_field i name)) ++ encode_field (count_field (i + 1) n))
          (i + 2) ps rest,
      length-append (pre ++ encode_field (text_field i name))
          (encode_field (count_field (i + 1) n)),
      length-append pre (encode_field (text_field i name)),
      length-encode_field (text_field i name),
      length-encode_field (count_field (i + 1) n),
    ))
  where
    shape :
        pair_payload pre i ((name, n) ∷ ps) rest
        ≡ pair_payload
            ((pre ++ encode_field (text_field i name)) ++ encode_field (count_field (i + 1) n))
            (i + 2)
            ps
            rest
    shape = simp append_assoc

abbrev counted_segments : List (Bytes × ℕ) → List Segment
counted_segments [] = []
counted_segments ((name, n) ∷ ps) = (name, some n) ∷ counted_segments ps

scan_segments-pair_payload :
    (fuel : ℕ) (pre : Bytes) (i : ℕ) (ps : List (Bytes × ℕ)) (rest : Bytes) (offset : ℕ)
    (ss : List Segment)
    → 2 * length ps < fuel
    → i % 2 ≡ 1
    → i + 2 * length ps < 65536
    → All IsSized ps
    → length rest < 7
    → offset ≡ length pre
    → scan_segments fuel (pair_payload pre i ps rest) offset (seen ss i)
      ≡ next (seen (ss ++ counted_segments ps) (i + 2 * length ps))
scan_segments-pair_payload zero pre i ps rest offset ss h odd few sized stop at =
    absurd (omega arith)
scan_segments-pair_payload (suc fuel) pre i [] rest offset ss h odd few sized stop at =
    last_round fuel pre rest offset (seen ss i) stop at
    ∙ same_seen (sym (append-nil ss)) (omega arith)
scan_segments-pair_payload (suc zero) pre i ((name, n) ∷ ps) rest offset ss h odd few sized stop
      at =
    absurd (omega arith)
scan_segments-pair_payload (suc (suc fuel)) pre i ((name, n) ∷ ps) rest offset ss h odd few sized
      stop at =
    pair fuel pre i name n ps rest offset ss odd (omega arith) sized.0 at
    ∙ scan_segments-pair_payload fuel
        ((pre ++ encode_field (text_field i name)) ++ encode_field (count_field (i + 1) n)) (i + 2)
        ps rest (offset + 7 + length name + 11) (ss ++ ((name, some n) ∷ [])) (omega arith)
        (omega arith) (omega arith) sized.1 stop
        (omega (
          arith,
          length-append (pre ++ encode_field (text_field i name))
              (encode_field (count_field (i + 1) n)),
          length-append pre (encode_field (text_field i name)),
          length-encode_field (text_field i name),
          length-encode_field (count_field (i + 1) n),
        ))
    ∙ same_seen (append_assoc ss ((name, some n) ∷ []) (counted_segments ps)) (omega arith)

segment_jsons-counted_segments :
    (ps : List (Bytes × ℕ))
    → segment_jsons (counted_segments ps) ≡ next (map (λ p. segment_json p.0 p.1) ps)
unfolding segment_jsons
segment_jsons-counted_segments [] = refl
segment_jsons-counted_segments ((name, n) ∷ ps) = rw (segment_jsons-counted_segments ps)

decoded :
    (m : Metrics) (ps : List (Bytes × ℕ)) (rest : Bytes)
    → ps ≢ []
    → 2 * length ps < 65535
    → All IsSized ps
    → length rest < 7
    → decode_get_segments_response m
        (pair_payload (encode_prologue success (2 * length ps)) 1 ps rest)
      ≡ next (sent_ok m (segments_json (map (λ p. segment_json p.0 p.1) ps)))
unfolding decode_get_segments_response
decoded m ps rest nonempty few sized stop = rw (
  read_prologue-encode_prologue success (2 * length ps) (encode_fields (pair_fields 1 ps) ++ rest)
      (omega arith),
  equal_refl success,
  ==_false (2 * length ps) 0 (λ e. nonempty (empty ps (omega arith))),
  even,
  scan_segments-pair_payload (length bytes) (encode_prologue success (2 * length ps)) 1 ps rest _ []
      enough refl (omega arith) sized stop (sym (length-encode_prologue success (2 * length ps))),
  back,
  ==_refl (2 * length ps),
  segment_jsons-counted_segments ps,
)
  where
    bytes : Bytes
    bytes = pair_payload (encode_prologue success (2 * length ps)) 1 ps rest

    empty : (xs : List (Bytes × ℕ)) → length xs ≡ 0 → xs ≡ []
    empty [] e = refl
    empty (x ∷ xs) e = cc

    even : 2 * length ps % 2 ≡ 0
    even = omega arith

    enough : 2 * length ps < length bytes
    enough = omega (
      arith,
      length-pair_payload (encode_prologue success (2 * length ps)) 1 ps rest,
      length-encode_prologue success (2 * length ps),
    )

    back : (1 + 2 * length ps + 65535) % 65536 ≡ 2 * length ps
    back = omega arith

-- A response that lists the segments in the wire format, each as its name and the number of its
-- properties, with twice their number in the field count, is answered by the JSON list of the same
-- names and numbers in the same order, and its bytes are counted. Up to six bytes
-- behind the list are not looked at.
pub decode_get_segments_response-pairs :
    (m : Metrics) (ps : List (Bytes × ℕ)) (rest : Bytes)
    → ps ≢ []
    → 2 * length ps < 65535
    → All IsSized ps
    → length rest < 7
    → decode_get_segments_response m
        (pair_payload (encode_prologue success (2 * length ps)) 1 ps rest)
      ≡ next (
          sent_ok m (success_with (member (codes "segments") (array (map segment_object ps)) ∷ [])))
decode_get_segments_response-pairs m ps rest nonempty few sized stop =
    decoded m ps rest nonempty few sized stop
    ∙ ap (λ json. next (sent_ok m json)) (segments_json-success_with ps)
