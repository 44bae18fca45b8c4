-- ===== src/Processor/Codecs.antt =====
-- src/processor/get_codecs.rs: GETCODECS, which the proxy sends itself when it starts.
pub mod Split
pub mod Listed
use rzgate.Prelude.{
  ℕ, ◌+◌, ◌==◌, not, Bool, true, false, leb, ltb, List, [], ◌∷◌, ◌++◌, length, Option, none, some,
  equal, if◌then◌else◌,
}
use rzgate.Bytes.{Bytes, codes}
use rzgate.Decimal.{decimal}
use rzgate.Utf8.{from_utf8}
use rzgate.Flow.{Flow, next, ◌>>=◌, index, slice, read_u16}
use rzgate.RzError.{Result, ok, err, internal}
use rzgate.Protocol.{Codecs}
use rzgate.Protocol.Reply.{success, Head, read_head}
use rzgate.Protocol.Response.{extract_error_message}
use rzgate.Processor.Request.{counted}
use rzgate.Processor.Codecs.Split.{trim, split_comma, trimmed_names}
use rzgate.Helper.PropertyId.{hex2}

-- `return Err(RZError::Internal(msg))`
abbrev pub fail : Bytes → Flow (Result Codecs)
fail msg = next (err (internal msg))

-- `extract_error_message(..)?; return Err(RZError::Internal(error_msg))`
abbrev pub refuse : Result Bytes → Result Codecs
refuse (ok error_msg) = err (internal error_msg)
refuse (err e) = err e

-- The data of the field, by its type.
unfoldable pub read_codecs : ℕ → Bytes → Flow (Result Codecs)
read_codecs field_type field_data =
    if field_type == 0x01
    then (elim (from_utf8 field_data) [
      | some msg ↦ fail msg
      | none ↦ fail (codes "invalid UTF-8 error message")
    ])
    else if not (field_type == 0x09)
    then fail (codes "expected field type 0x09, got 0x" ++ hex2 field_type)
    else (elim (from_utf8 field_data) [
      | some raw_str ↦ next (ok (record { rate_features = trimmed_names (split_comma raw_str) }))
      | none ↦ fail (codes "invalid UTF-8 in codecs payload")
    ])

-- The one field of a success.
unfoldable pub read_codecs_field : Bytes → ℕ → Flow (Result Codecs)
unfolding read_codecs
read_codecs_field bytes offset =
    if ltb (length bytes) (offset + 7) then fail (codes "truncated field header") else (do
      head ← read_head bytes offset
      if not (head.id == 1)
          then fail (codes "expected field ID 1, got " ++ decimal head.id)
          else if ltb (length bytes) (offset + 7 + head.len)
          then fail (codes "truncated field data")
          else (do
            field_data ← slice bytes (offset + 7) (offset + 7 + head.len)
            read_codecs head.field_type field_data))

unfoldable pub decode_get_codecs_response : Bytes → Flow (Result Codecs)
unfolding read_codecs_field
decode_get_codecs_response bytes =
    if length bytes == 0 then fail (codes "empty payload for GETCODECS") else (do
      status_len ← index bytes 0
      if ltb (length bytes) (1 + status_len + 2)
          then fail (codes "payload too short for status + field count")
          else (do
            status ← slice bytes 1 (1 + status_len)
            field_count ← read_u16 bytes (1 + status_len)
            if not (equal status success)
                then (do
                  error_msg ← extract_error_message bytes field_count (1 + status_len + 2)
                  next (refuse error_msg))
                else if not (field_count == 1)
                then fail (codes "expected exactly 1 field, got " ++ decimal field_count)
                else read_codecs_field bytes (1 + status_len + 2)))

-- `handler.execute(..).await?`, and the decoder. `none` is a panic.
abbrev received : Flow (Result Codecs) → Option (Result Codecs)
received (next r) = some r
received _ = none

abbrev decoded : Result Bytes → Option (Result Codecs)
decoded (ok field_data) = received (decode_get_codecs_response field_data)
decoded (err e) = some (err e)

unfoldable pub process_get_codecs : (Bytes → Bool → Bytes → Result Bytes) → Option (Result Codecs)
process_get_codecs execute =
    decoded (execute (codes "__codecs__") false (counted (codes "GETCODECS") 0))
