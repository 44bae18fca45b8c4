-- ===== src/Protocol.antt =====
-- src/protocol/mod.rs: the constants and the types of the wire protocol. Its functions are in the
-- modules below, and src/protocol/response.rs is `Protocol.Response`.
pub mod Frame
pub mod Drain
pub mod Failure
pub mod Reply
pub mod Response
mod Examples
use rzgate.Prelude.{ℕ, ◌+◌, ◌%◌, ◌^◌, List, ◌∷◌, ◌++◌, length}
use rzgate.Bytes.{Bytes, codes, u16_le, u32_le}

abbrev pub status_key : Bytes
status_key = codes "\"status\":"

abbrev pub message_key : Bytes
message_key = codes "\"message\":"

abbrev pub error_value : Bytes
error_value = codes "\"error\""

abbrev pub success_value : Bytes
success_value = codes "\"success\""

abbrev pub shard_magic : ℕ
shard_magic = 0xFF

abbrev pub router_magic : ℕ
router_magic = 0xFE

abbrev pub keepalive_segment : Bytes
keepalive_segment = codes "__keepalive__"

pub data ProtocolError : Type 0 where
  short_frame : ProtocolError
  missing_magic : ℕ → ProtocolError
  short_payload : Bytes → ProtocolError
  extra_bytes : ℕ → ProtocolError
  invalid_utf8 : ProtocolError
  invalid_response : Bytes → ProtocolError

-- The decoded fixed part of a frame.
pub record Header : Type 0 where
  pub clr_id : ℕ
  pub status_len : ℕ
  pub field_cnt : ℕ

pub record Field : Type 0 where
  pub id : ℕ
  pub field_type : ℕ
  pub payload : Bytes

pub record Codecs : Type 0 where
  pub rate_features : List Bytes
