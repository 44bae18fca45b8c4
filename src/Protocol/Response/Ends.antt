-- ===== src/Protocol/Response/Ends.antt =====
-- The decoders of src/protocol/response.rs end on every payload: no index and no slice is out of
-- bounds.
use rzgate.Prelude.{
  ℕ, ◌+◌, ◌≡◌, refl, ◌&&◌, ◌||◌, not, length, arith, ltb, leb, ◌==◌, Bool-cases, inl, inr, equal,
}
use rzgate.Bytes.{Bytes}
use rzgate.Flow.{next}
use rzgate.Flow.Rules.{
  Returns, value, early, Returns-bind, Returns-from, Returns-if, index_lt, slice_le,
}
use rzgate.RzError.{Result}
use rzgate.Metrics.{Metrics}
use rzgate.Protocol.Reply.{success, Prologue, Head}
use rzgate.Protocol.Reply.Ends.{Returns-reject_if, read_head_lt, read_prologue-Returns}
use rzgate.Protocol.Response.{
  no_message, message_text, read_message, extract_error_message, handle_non_success_status,
  decode_simple_response, read_scalar_u8, decode_scalar_u8_response, decode_boolean_response,
}

read_message_total :
    (bytes : Bytes) (offset : ℕ) (h : Head)
    → (r : Result Bytes) × (read_message bytes offset h ≡ next r)
unfolding read_message
read_message_total bytes offset h =
    elim (Bool-cases (h.id == 1 && h.field_type == 0x01 && leb (offset + h.len) (length bytes))) [
      | inr outside ↦ rw outside (no_message, refl)
      | inl inside ↦
          let (s, e, _) = slice_le bytes offset (offset + h.len) (omega arith) (ground arith) in
          rw (inside, e) (message_text s, refl)
    ]

-- The extraction gives a message or an error, and takes no early exit.
pub extract_error_message_total :
    (bytes : Bytes) (n offset : ℕ)
    → (r : Result Bytes) × (extract_error_message bytes n offset ≡ next r)
unfolding extract_error_message
extract_error_message_total bytes n offset =
    elim (Bool-cases (leb 1 n && leb (offset + 7) (length bytes))) [
      | inr short ↦ rw short (no_message, refl)
      | inl long ↦
          let (h, e) = read_head_lt bytes offset (ground arith) in
          rw (long, e) (read_message_total bytes (offset + 7) h)
    ]

pub extract_error_message-Returns :
    (bytes : Bytes) (n offset : ℕ) → Returns (extract_error_message bytes n offset)
extract_error_message-Returns bytes n offset =
    let (r, e) = extract_error_message_total bytes n offset in rw e (value r)

pub handle_non_success_status-Returns :
    (m : Metrics) (bytes status : Bytes) (n offset : ℕ)
    → Returns (handle_non_success_status m bytes status n offset)
unfolding handle_non_success_status
handle_non_success_status-Returns m bytes status n offset =
    Returns-bind _ (extract_error_message-Returns bytes n offset) λ _. value _

decode_simple_response-Returns :
    (m : Metrics) (bytes : Bytes) → Returns (decode_simple_response m bytes)
unfolding decode_simple_response
decode_simple_response-Returns m bytes = read_prologue-Returns bytes _ λ p _.
    Returns-if (not (equal p.status success)) _ _
      (λ _. handle_non_success_status-Returns m bytes p.status p.field_count p.offset)
      λ _. Returns-if (p.field_count == 0) _ _ (λ _. value _) λ _. early

read_scalar_u8-Returns : (bytes : Bytes) (p : Prologue) → Returns (read_scalar_u8 bytes p)
unfolding read_scalar_u8
read_scalar_u8-Returns bytes p = Returns-reject_if (not (p.field_count == 1)) λ _.
    Returns-reject_if (ltb (length bytes) (p.offset + 7)) λ long.
      Returns-from _ _ (read_head_lt bytes p.offset (ground arith)) λ h _.
        Returns-reject_if (not (h.id == 1) || not (h.field_type == 0x02)) λ _.
          Returns-reject_if (not (h.len == 1) || leb (length bytes) (p.offset + 7))
            λ inside. let (b, e) = index_lt bytes (p.offset + 7) (ground arith) in rw e (value b)

decode_scalar_u8_response-Returns :
    (m : Metrics) (bytes name : Bytes) → Returns (decode_scalar_u8_response m bytes name)
unfolding decode_scalar_u8_response
decode_scalar_u8_response-Returns m bytes name = read_prologue-Returns bytes _ λ p _.
    Returns-if (not (equal p.status success)) _ _
      (λ _. handle_non_success_status-Returns m bytes p.status p.field_count p.offset)
      λ _. Returns-bind _ (read_scalar_u8-Returns bytes p) λ _. value _

decode_boolean_response-Returns :
    (m : Metrics) (bytes name : Bytes) → Returns (decode_boolean_response m bytes name)
unfolding decode_boolean_response
decode_boolean_response-Returns m bytes name = read_prologue-Returns bytes _ λ p _.
    Returns-if (not (equal p.status success)) _ _
      (λ _. handle_non_success_status-Returns m bytes p.status p.field_count p.offset)
      λ _. Returns-bind _ (read_scalar_u8-Returns bytes p) λ _. value _

-- The three decoders answer every payload, well formed or not: no index and no slice of theirs is out
-- of bounds.
pub decoders-Returns :
    (m : Metrics) (bytes name : Bytes)
    → Returns (decode_simple_response m bytes)
      × Returns (decode_scalar_u8_response m bytes name)
      × Returns (decode_boolean_response m bytes name)
decoders-Returns m bytes name = (
  decode_simple_response-Returns m bytes,
  decode_scalar_u8_response-Returns m bytes name,
  decode_boolean_response-Returns m bytes name,
)
