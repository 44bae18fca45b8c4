-- ===== src/Protocol/Frame.antt =====
-- src/protocol/mod.rs: the frames that the proxy sends. u32 arithmetic wraps, as it does in a release
-- build; the capacities given to `Vec::with_capacity` are not modelled.
pub mod Layout
use rzgate.Prelude.{ℕ, ◌+◌, ◌%◌, ◌^◌, Bool, true, false, [], ◌∷◌, ◌++◌, length, if◌then◌else◌}
use rzgate.Bytes.{Bytes, u32_le}
use rzgate.Protocol.{shard_magic, router_magic, keepalive_segment}

unfoldable pub build_keepalive_frame : Bytes
build_keepalive_frame =
    let segment = keepalive_segment in
    let seg_len = length segment % 256 in
    let total_len = 1 + length segment + 1 + 9 in
    router_magic ∷ u32_le (total_len % 2 ^ 32)
    ++ (seg_len ∷ segment ++ (0x00 ∷ shard_magic ∷ u32_le 0 ++ u32_le 0))

unfoldable pub prepend_header : ℕ → Bytes → Bytes
prepend_header clrid payload =
    let total_len = length payload % 2 ^ 32 in 0xFF ∷ u32_le clrid ++ (u32_le total_len ++ payload)

unfoldable pub prepend_router_header : Bytes → Bool → ℕ → Bytes → Bytes
prepend_router_header segment is_write clrid payload =
    let shard_total_len = length payload % 2 ^ 32 in
    let shard_frame_len = (9 + shard_total_len) % 2 ^ 32 in
    let segment_len = length segment % 2 ^ 32 in
    let router_header_len = (1 + segment_len + 1) % 2 ^ 32 in
    router_magic ∷ u32_le ((router_header_len + shard_frame_len) % 2 ^ 32)
    ++ (segment_len % 256 ∷ segment
        ++ ((if is_write then 0x01 else 0x00) ∷ shard_magic ∷ u32_le clrid
            ++ (u32_le shard_total_len ++ payload)))
