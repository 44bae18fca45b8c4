-- ===== src/Protocol/Examples.antt =====
-- The theorems on the wire formats, applied to concrete frames and responses.
use rzgate.Document.{success_with, member}
use rzgate.Prelude.{◌≡◌, refl, true, false, some, [], ◌∷◌, ◌++◌, replicate, arith, equal}
use rzgate.Bytes.{Bytes, codes}
use rzgate.Decimal.{decimal}
use rzgate.Flow.{next, read_u16, index, slice}
use rzgate.Flow.Rules.{Returns}
use rzgate.Metrics.{new}
use rzgate.Protocol.{shard_magic}
use rzgate.Protocol.Frame.{prepend_header, prepend_router_header}
use rzgate.Protocol.Frame.Layout.{Routed, read_router, read_router-prepend_router_header}
use rzgate.Protocol.Drain.{received, failed, Reader, frame, parse_payload, drain_frame_async}
use rzgate.Protocol.Drain.Progress.{drain_frame_async-Returns}
use rzgate.Protocol.Drain.Chunks.{Takes, drain-prepend_header}
use rzgate.Protocol.Reply.{success, read_prologue}
use rzgate.Protocol.Response.{
  sent_ok, decode_simple_response, decode_scalar_u8_response, decode_boolean_response,
}
use rzgate.Protocol.Response.Scalar.{one_field, scalar_field}
use rzgate.Protocol.Response.Verdicts.{
  decode_scalar_u8_response-scalar_field, message_field, IsErrorReply, decode-non_success,
}

read_router_example :
    read_router (prepend_router_header (codes "eu") true 258 (codes "abc") ++ (9 ∷ []))
    ≡ some (
      record { segment = codes "eu"; is_write = true; clrid = 258; payload = codes "abc" },
      9 ∷ [],
    )
read_router_example =
    read_router-prepend_router_header (codes "eu") true 258 (codes "abc") (omega arith) (9 ∷ [])
      (omega arith) (omega arith)

-- A segment of 256 bytes, whose length byte is 0: the router takes its bytes for the frame.
abbrev long_segment : Bytes
long_segment = 0 ∷ shard_magic ∷ 0 ∷ 0 ∷ 0 ∷ 0 ∷ 0 ∷ 1 ∷ 0 ∷ 0 ∷ replicate 246 7

abbrev misread : Routed
misread = record {
  segment = [];
  is_write = false;
  clrid = 0;
  payload = replicate 246 7 ++ (1 ∷ shard_magic ∷ 2 ∷ 1 ∷ 0 ∷ 0 ∷ 0 ∷ 0 ∷ 0 ∷ 0 ∷ []);
}

abbrev reply : Bytes
reply = 7 ∷ codes "SUCCESS" ++ (0 ∷ 0 ∷ [])

parsed :
    parse_payload 258 reply
    ≡ next (frame (record { clr_id = 258; status_len = 7; field_cnt = 0 }) reply)
unfolding parse_payload read_u16 index
parsed = refl

-- Two reads that cut the frame behind its first two bytes.
abbrev reader : Reader
reader =
    received (0xFF ∷ 2 ∷ []) ∷ received (1 ∷ 0 ∷ 0 ∷ 10 ∷ 0 ∷ 0 ∷ 0 ∷ reply ++ (0xFF ∷ [])) ∷ []

drain_example :
    Takes 258 reply
      (0xFF ∷ [])
      (omega arith)
      (omega arith)
      (frame (record { clr_id = 258; status_len = 7; field_cnt = 0 }) reply)
      parsed
      (drain_frame_async reader [])
unfolding prepend_header
drain_example =
    drain-prepend_header 258 reply (0xFF ∷ []) (omega arith) (omega arith)
      (frame (record { clr_id = 258; status_len = 7; field_cnt = 0 }) reply) parsed reader [] refl

drain_ends_example :
    Returns (drain_frame_async (received (0xFF ∷ []) ∷ failed ∷ []) (0xFF ∷ 1 ∷ []))
drain_ends_example = drain_frame_async-Returns (received (0xFF ∷ []) ∷ failed ∷ []) (0xFF ∷ 1 ∷ [])

scalar_example :
    decode_scalar_u8_response new (one_field success (scalar_field 42) []) (codes "availability")
    ≡ next (sent_ok new (success_with (member (codes "availability") (decimal 42) ∷ [])))
scalar_example = decode_scalar_u8_response-scalar_field new (codes "availability") [] 42

abbrev failing : Bytes
failing = one_field (codes "ERROR") (message_field (codes "404")) []

non_success_example :
    IsErrorReply new (decode_simple_response new (2 ∷ codes "NO" ++ (1 ∷ 0 ∷ [])))
    × IsErrorReply new
        (decode_scalar_u8_response new (2 ∷ codes "NO" ++ (1 ∷ 0 ∷ [])) (codes "exists"))
    × IsErrorReply new
        (decode_boolean_response new (2 ∷ codes "NO" ++ (1 ∷ 0 ∷ [])) (codes "exists"))
unfolding equal index slice read_u16
non_success_example =
    decode-non_success new (2 ∷ codes "NO" ++ (1 ∷ 0 ∷ [])) (codes "exists")
      (record { status = codes "NO"; field_count = 1; offset = 5 }) (unfold read_prologue in refl)
      refl
