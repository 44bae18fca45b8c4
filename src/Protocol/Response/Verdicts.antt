-- ===== src/Protocol/Response/Verdicts.antt =====
-- What the decoders of src/protocol/response.rs answer to the responses of the wire format.
use rzgate.Document.{success_with, member}
use rzgate.Document.Answers.{value_json-success_with}
use rzgate.Prelude.{
  ◌∷◌, ap, ℕ, ◌≤◌, ◌≡◌, refl, false, [], ◌++◌, length, arith, ◌==◌, equal, equal_refl,
  if◌then◌else◌,
}
use rzgate.Bytes.{Bytes, IsU16, codes}
use rzgate.Decimal.{decimal}
use rzgate.Flow.{Flow, next, invalid}
use rzgate.Metrics.{Metrics, inc_client_errors, add_bytes_sent}
use rzgate.Http.{Response, json_response}
use rzgate.Protocol.{Field}
use rzgate.Protocol.Reply.{success, Prologue, read_prologue}
use rzgate.Protocol.Reply.Encoding.{encode_prologue, encode_field, read_prologue-encode_prologue}
use rzgate.Protocol.Response.Ends.{extract_error_message_total}
use rzgate.Protocol.Response.{
  or_status, status_code, error_json, handle_non_success_status, sent_ok, decode_simple_response,
  value_json, decode_scalar_u8_response, decode_boolean_response,
}
use rzgate.Protocol.Response.Scalar.{one_field, scalar_field, read_scalar_u8-scalar_field}

-- A SUCCESS response to a simple command is a success exactly when it has no field; with a field it
-- is refused. What follows the field count is not looked at.
pub decode_simple_response-success :
    (m : Metrics) (n : ℕ) (rest : Bytes)
    → IsU16 n
    → decode_simple_response m (encode_prologue success n ++ rest)
      ≡ (if n == 0 then next (sent_ok m (codes "{\"status\":\"success\"}")) else invalid)
unfolding decode_simple_response
decode_simple_response-success m n rest h =
    rw (read_prologue-encode_prologue success n rest h, equal_refl success)

module _ (m : Metrics) (name rest : Bytes) where
  -- A scalar response with the value `v` is answered by a JSON object that names it, in decimal.
  pub decode_scalar_u8_response-scalar_field :
      (v : ℕ)
      → decode_scalar_u8_response m (one_field success (scalar_field v) rest) name
        ≡ next (sent_ok m (success_with (member name (decimal v) ∷ [])))
  unfolding decode_scalar_u8_response
  decode_scalar_u8_response-scalar_field v =
      rw
        (
          read_prologue-encode_prologue success 1 (encode_field (scalar_field v) ++ rest)
              (omega arith),
          equal_refl success,
          read_scalar_u8-scalar_field v rest,
        )
        (ap (λ json. next (sent_ok m json)) (value_json-success_with name (decimal v)))

  -- A boolean response is `true` for the value 1 and `false` for any other value.
  pub decode_boolean_response-scalar_field :
      (v : ℕ)
      → decode_boolean_response m (one_field success (scalar_field v) rest) name
        ≡ next (sent_ok m (value_json name (if v == 1 then codes "true" else codes "false")))
  unfolding decode_boolean_response
  decode_boolean_response-scalar_field v = rw (
    read_prologue-encode_prologue success 1 (encode_field (scalar_field v) ++ rest) (omega arith),
    equal_refl success,
    read_scalar_u8-scalar_field v rest,
  )

abbrev pub message_field : Bytes → Field
message_field msg = record { id = 1; field_type = 0x01; payload = msg }

-- The answer for an error message: the HTTP status is taken from the message, one client error is
-- counted, and the bytes of the body are counted as sent.
abbrev pub error_reply : Metrics → Bytes → Response × Metrics
error_reply m msg = (
  json_response (status_code msg) (error_json msg),
  add_bytes_sent (inc_client_errors m) (length (error_json msg)),
)

-- No message is answered with a status below 400.
pub status_code-le : (msg : Bytes) → 400 ≤ status_code msg
unfolding status_code
status_code-le msg = ground arith

-- The flow answers with an error.
abbrev pub IsErrorReply : Metrics → Flow (Response × Metrics) → Type 0
IsErrorReply m r = (msg : Bytes) × (r ≡ next (error_reply m msg)) × (400 ≤ status_code msg)

pub handle_non_success-IsErrorReply :
    (m : Metrics) (bytes status : Bytes) (n offset : ℕ)
    → IsErrorReply m (handle_non_success_status m bytes status n offset)
unfolding handle_non_success_status
handle_non_success-IsErrorReply m bytes status n offset =
    let (r, e) = extract_error_message_total bytes n offset in
    rw e (or_status status r, refl, status_code-le (or_status status r))

-- Whatever a payload holds, under a status other than SUCCESS all three decoders answer with an error:
-- the HTTP status is 400 or more, one client error is counted, and the body's bytes are counted.
pub decode-non_success :
    (m : Metrics) (bytes name : Bytes) (p : Prologue)
    → read_prologue bytes ≡ next p
    → equal p.status success ≡ false
    → IsErrorReply m (decode_simple_response m bytes)
      × IsErrorReply m (decode_scalar_u8_response m bytes name)
      × IsErrorReply m (decode_boolean_response m bytes name)
unfolding decode_simple_response decode_scalar_u8_response decode_boolean_response
decode-non_success m bytes name p e other =
    let r = handle_non_success-IsErrorReply m bytes p.status p.field_count p.offset in
    (rw (e, other) r, rw (e, other) r, rw (e, other) r)
