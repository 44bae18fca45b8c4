-- ===== src/Protocol/Drain.antt =====
-- src/protocol/mod.rs: `drain_frame_async`, which takes one frame off the stream.
pub mod Progress
pub mod Chunks
use rzgate.Prelude.{
  ℕ, zero, suc, ◌+◌, ◌-◌, ◌≡◌, Bool, true, false, not, List, [], ◌∷◌, ◌++◌, length, take, drop, ltb,
  leb, ◌==◌, if◌then◌else◌,
}
use rzgate.Bytes.{Bytes, codes}
use rzgate.Flow.{Flow, next, panic, ◌>>=◌, index, slice, read_u16, read_u32}
use rzgate.Protocol.{ProtocolError, short_frame, missing_magic, short_payload, Header}

-- What one `read_buf` gives: some bytes appended to the buffer (none at the end of the stream), or
-- an error. The end of the list is the end of the stream.
pub data Read : Type 0 where
  received : Bytes → Read
  failed : Read

abbrev pub Reader : Type 0
Reader = List Read

pub record Filled : Type 0 where
  pub enough : Bool
  pub buf : Bytes
  pub reader : Reader

-- `while buf.len() < need { if reader.read_buf(buf).await? == 0 { return Err(ShortFrame) } }`
pub fill : ℕ → Bytes → Reader → Filled
fill need buf [] = record { enough = leb need (length buf); buf = buf; reader = [] }
fill need buf (failed ∷ reader) =
    if ltb (length buf) need
    then record { enough = false; buf = buf; reader = reader }
    else record { enough = true; buf = buf; reader = failed ∷ reader }
fill need buf (received [] ∷ reader) =
    if ltb (length buf) need
    then record { enough = false; buf = buf; reader = reader }
    else record { enough = true; buf = buf; reader = received [] ∷ reader }
fill need buf (received (b ∷ bs) ∷ reader) =
    let more = fill need (buf ++ (b ∷ bs)) reader in
    if ltb (length buf) need
    then more
    else record { enough = true; buf = buf; reader = received (b ∷ bs) ∷ reader }

pub data Outcome : Type 0 where
  frame : Header → Bytes → Outcome
  refused : ProtocolError → Outcome

-- The result, with the buffer and the stream as the call leaves them.
pub record Drained : Type 0 where
  pub outcome : Outcome
  pub buf : Bytes
  pub reader : Reader

-- The checks of a payload that has been split off the buffer.
unfoldable pub parse_payload : ℕ → Bytes → Flow Outcome
parse_payload clr_id payload =
    if length payload == 0 then next (refused (short_payload (codes "empty payload"))) else do
      status_len ← index payload 0
      if ltb (length payload) (1 + status_len + 2)
          then next (refused (short_payload (codes "missing field count")))
          else do
            field_cnt ← read_u16 payload (1 + status_len)
            next (
                frame (record { clr_id = clr_id; status_len = status_len; field_cnt = field_cnt })
                  payload)

-- What happens behind the magic byte, with nine bytes in the buffer at least.
drain_payload : Filled → Flow Drained
drain_payload f = do
  clr_id ← read_u32 f.buf 1
  payload_len ← read_u32 f.buf 5
  let g = fill (9 + payload_len) f.buf f.reader
  if not g.enough
      then next (record { outcome = refused short_frame; buf = g.buf; reader = g.reader })
      else do
        payload ← slice g.buf 9 (9 + payload_len)
        outcome ← parse_payload clr_id payload
        next (record { outcome = outcome; buf = drop (9 + payload_len) g.buf; reader = g.reader })

pub drain_frame_async : Reader → Bytes → Flow Drained
unfolding drain_payload parse_payload
drain_frame_async reader buf =
    let f = fill 9 buf reader in
    if not f.enough
    then next (record { outcome = refused short_frame; buf = f.buf; reader = f.reader })
    else do
      magic ← index f.buf 0
      if not (magic == 0xFF)
          then next
              (record { outcome = refused (missing_magic magic); buf = f.buf; reader = f.reader })
          else drain_payload f
