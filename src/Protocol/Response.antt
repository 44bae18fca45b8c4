-- ===== src/Protocol/Response.antt =====
-- src/protocol/response.rs: the decoders for responses with no field or one small field, and what is
-- made of a status other than SUCCESS. `Flow.invalid` is `return invalid_response()`.
pub mod Ends
pub mod Accounts
pub mod Scalar
pub mod Verdicts
use Prim.Native.String.{String}
use rzgate.Prelude.{
  ℕ, ◌+◌, Bool, true, false, ◌&&◌, ◌||◌, not, Option, none, some, List, [], ◌∷◌, ◌++◌, length, ltb,
  leb, ◌==◌, if◌then◌else◌, equal,
}
use rzgate.Bytes.{Bytes, codes}
use rzgate.Utf8.{from_utf8, from_utf8_lossy}
use rzgate.Decimal.{decimal}
use rzgate.Flow.{Flow, next, invalid, panic, stuck, ◌>>=◌, index, slice, read_u16, read_u32}
use rzgate.RzError.{Result, ok, err, internal}
use rzgate.Metrics.{Metrics, inc_client_errors, add_bytes_sent}
use rzgate.Http.{
  Response, json_response, status_ok, bad_request, not_found, internal_server_error,
  service_unavailable, gateway_timeout,
}
use rzgate.Protocol.Failure.{invalid_response}
use rzgate.Protocol.Reply.{reject_if, ◌>>◌, success, Prologue, read_prologue, Head, read_head}

-- Known error codes become messages for the user; any other message stays.
unfoldable pub friendly : Bytes → Bytes
friendly msg =
    if equal msg (codes "404")
    then codes "The requested segment was not found"
    else if equal msg (codes "503")
    then codes "Service is temporarily unavailable. Please try again later."
    else if equal msg (codes "408")
    then codes "The request timed out. Please try again."
    else if equal msg (codes "500")
    then codes "An internal error occurred. Please try again later."
    else msg

no_message : Result Bytes
no_message = err (internal (codes "Failed to extract error message from response"))

-- The message as text: a non-empty one is mapped if it is valid UTF-8, and mended if it is not.
pub message_text : Bytes → Result Bytes
unfolding no_message
message_text message =
    if not (length message == 0)
    then (elim (from_utf8 message) [
      | some msg ↦ ok (friendly msg)
      | none ↦ ok (from_utf8_lossy message)
    ])
    else no_message

-- The data of the field with this head, which begins at `msg_offset`.
pub read_message : Bytes → ℕ → Head → Flow (Result Bytes)
unfolding message_text no_message
read_message bytes msg_offset head =
    if head.id == 1 && head.field_type == 0x01 && leb (msg_offset + head.len) (length bytes)
    then (do message ← slice bytes msg_offset (msg_offset + head.len); next (message_text message))
    else next no_message

pub extract_error_message : Bytes → ℕ → ℕ → Flow (Result Bytes)
unfolding read_message no_message
extract_error_message bytes field_count offset =
    if leb 1 field_count && leb (offset + 7) (length bytes)
    then (do head ← read_head bytes offset; read_message bytes (offset + 7) head)
    else next no_message

abbrev is_printable : ℕ → Bool
is_printable b = leb 0x20 b && leb b 0x7E

-- `.filter(|b| *b >= 0x20 && *b <= 0x7E).collect()`
pub printable : Bytes → Bytes
printable [] = []
printable (b ∷ bs) = if is_printable b then b ∷ printable bs else printable bs

-- The fallback: the status without control bytes.
pub clean_status : Bytes → Bytes
unfolding printable
clean_status status =
    let clean = printable status in
    if length clean == 0 then from_utf8_lossy (codes "UNKNOWN_ERROR") else from_utf8_lossy clean

unfoldable pub status_code : Bytes → ℕ
status_code msg =
    if equal msg (codes "The requested segment was not found")
    then not_found
    else if equal msg (codes "Service is temporarily unavailable. Please try again later.")
    then service_unavailable
    else if equal msg (codes "The request timed out. Please try again.")
    then gateway_timeout
    else if equal msg (codes "An internal error occurred. Please try again later.")
    then internal_server_error
    else bad_request

unfoldable pub error_json : Bytes → Bytes
error_json msg = codes "{\"status\":\"error\",\"message\":\"" ++ (msg ++ codes "\"}")

abbrev or_status : Bytes → Result Bytes → Bytes
or_status status (ok msg) = msg
or_status status (err _) = clean_status status

pub handle_non_success_status : Metrics → Bytes → Bytes → ℕ → ℕ → Flow (Response × Metrics)
unfolding extract_error_message clean_status status_code error_json
handle_non_success_status metrics bytes status field_count offset = do
  extracted ← extract_error_message bytes field_count offset
  let error_msg = or_status status extracted
  let json = error_json error_msg
  next (
    json_response (status_code error_msg) json,
    add_bytes_sent (inc_client_errors metrics) (length json),
  )

-- `metrics.add_bytes_sent(json.len() as u64); (StatusCode::OK, .., json).into_response()`
abbrev pub sent_ok : Metrics → Bytes → Response × Metrics
sent_ok metrics json = (json_response status_ok json, add_bytes_sent metrics (length json))

pub decode_simple_response : Metrics → Bytes → Flow (Response × Metrics)
decode_simple_response metrics bytes = do
  p ← read_prologue bytes
  if not (equal p.status success)
      then handle_non_success_status metrics bytes p.status p.field_count p.offset
      else if p.field_count == 0
      then next (sent_ok metrics (codes "{\"status\":\"success\"}"))
      else invalid

-- The one field of a scalar response: id 1, type 0x02, one byte.
pub read_scalar_u8 : Bytes → Prologue → Flow ℕ
read_scalar_u8 bytes p = do
  reject_if (not (p.field_count == 1))
  reject_if (ltb (length bytes) (p.offset + 7))
  head ← read_head bytes p.offset
  reject_if (not (head.id == 1) || not (head.field_type == 0x02))
  reject_if (not (head.len == 1) || leb (length bytes) (p.offset + 7))
  index bytes (p.offset + 7)

-- `{"status":"success","<name>":<value>}`
unfoldable pub value_json : Bytes → Bytes → Bytes
value_json name value =
    codes "{\"status\":\"success\",\"" ++ (name ++ (codes "\":" ++ (value ++ codes "}")))

pub decode_scalar_u8_response : Metrics → Bytes → Bytes → Flow (Response × Metrics)
unfolding read_scalar_u8 value_json
decode_scalar_u8_response metrics bytes value_field_name = do
  p ← read_prologue bytes
  if not (equal p.status success)
      then handle_non_success_status metrics bytes p.status p.field_count p.offset
      else do
        value ← read_scalar_u8 bytes p
        next (sent_ok metrics (value_json value_field_name (decimal value)))

pub decode_boolean_response : Metrics → Bytes → Bytes → Flow (Response × Metrics)
unfolding read_scalar_u8 value_json
decode_boolean_response metrics bytes field_name = do
  p ← read_prologue bytes
  if not (equal p.status success)
      then handle_non_success_status metrics bytes p.status p.field_count p.offset
      else do
        value ← read_scalar_u8 bytes p
        next (
            sent_ok metrics
              (value_json field_name (if value == 1 then codes "true" else codes "false")))
