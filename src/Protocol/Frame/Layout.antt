-- ===== src/Protocol/Frame/Layout.antt =====
-- The frames against an independent reading of the layouts that the doc comments of
-- src/protocol/mod.rs draw: what a shard and a router take a frame for.
use native.Mathlib.Nat.{mod-eq_of_lt}
use rzgate.Prelude.{
  ℕ, ◌+◌, ◌/◌, ◌%◌, ◌<◌, ◌≡◌, refl, Bool, true, false, ◌&&◌, Option, none, some, [], ◌∷◌, ◌++◌,
  length, length-append, take, drop, take-append, drop-append, append-nil, arith, ◌==◌, leb,
  if◌then◌else◌,
}
use rzgate.Bytes.{Bytes, IsU32, u32_le, from_u32_le}
use rzgate.Bytes.Words.{from_u32_le-u32_le}
use rzgate.Protocol.{shard_magic, router_magic, keepalive_segment}
use rzgate.Protocol.Frame.{build_keepalive_frame, prepend_header, prepend_router_header}

-- | magic(1) | clrid(4) | totalLen(4) | payload(totalLen) |
pub data Shard : Type 0 where
  shard : (clrid : ℕ) (payload rest : Bytes) → Shard

unfoldable pub read_shard : Bytes → Option Shard
read_shard (m ∷ a ∷ b ∷ c ∷ d ∷ e ∷ f ∷ g ∷ h ∷ body) =
    let n = from_u32_le e f g h in
    if m == shard_magic && leb n (length body)
    then some (shard (from_u32_le a b c d) (take n body) (drop n body))
    else none
read_shard _ = none

-- A length below 2 ^ 32 survives the cast to u32 and the four bytes.
read_length :
    (n : ℕ)
    → IsU32 n
    → from_u32_le
        (n % 4294967296 % 256)
        (n % 4294967296 / 256 % 256)
        (n % 4294967296 / 65536 % 256)
        (n % 4294967296 / 16777216 % 256)
      ≡ n
read_length n h = omega arith

fits : (payload rest : Bytes) → leb (length payload) (length (payload ++ rest)) ≡ true
fits payload rest = ground (arith, length-append payload rest)

-- A shard reads back the correlation id and the payload that `prepend_header` was given, whatever
-- bytes follow, if the id is a u32 and the payload's length fits its four bytes.
pub read_shard-prepend_header :
    (clrid : ℕ) (payload rest : Bytes)
    → IsU32 clrid
    → IsU32 (length payload)
    → read_shard (prepend_header clrid payload ++ rest) ≡ some (shard clrid payload rest)
unfolding read_shard prepend_header
read_shard-prepend_header clrid payload rest h k = rw (
  read_length (length payload) k,
  fits payload rest,
  from_u32_le-u32_le clrid h,
  take-append,
  drop-append,
)

-- | routerMagic(1) | totalLen(4) | segmentLen(1) | segment(n) | isWrite(1) | shardFrame |
pub record Routed : Type 0 where
  pub segment : Bytes
  pub is_write : Bool
  pub clrid : ℕ
  pub payload : Bytes

route : Bytes → Bytes → Option Routed
route segment (w ∷ frame) = elim (read_shard frame) [
  | some (shard clrid payload []) ↦
      some (record { segment = segment; is_write = w == 0x01; clrid = clrid; payload = payload })
  | _ ↦ none
]
route segment [] = none

read_routed : Bytes → Option Routed
read_routed (n ∷ inner) = if leb n (length inner) then route (take n inner) (drop n inner) else none
read_routed [] = none

unfoldable pub read_router : Bytes → Option (Routed × Bytes)
unfolding read_routed route
read_router (m ∷ a ∷ b ∷ c ∷ d ∷ body) =
    let n = from_u32_le a b c d in
    if m == router_magic && leb n (length body)
    then (elim (read_routed (take n body)) [ some r ↦ some (r, drop n body) | none ↦ none ])
    else none
read_router _ = none

-- The part of a router frame behind `totalLen`.
routed_part : Bytes → Bool → ℕ → Bytes → Bytes
routed_part segment is_write clrid payload =
    length segment % 256 ∷ segment
    ++ ((if is_write then 0x01 else 0x00) ∷ prepend_header clrid payload)

length-routed_part :
    (segment : Bytes) (w : Bool) (clrid : ℕ) (payload : Bytes)
    → length (routed_part segment w clrid payload) ≡ length segment + length payload + 11
unfolding routed_part prepend_header
length-routed_part segment w clrid payload =
    omega (arith, length-append segment ((if w then 0x01 else 0x00) ∷ prepend_header clrid payload))

u32_mod : (n : ℕ) → IsU32 n → n % 4294967296 ≡ n
u32_mod n h = omega arith

u32_total :
    (n k : ℕ)
    → n + k + 11 < 4294967296
    → ((1 + n % 4294967296 + 1) % 4294967296 + (9 + k % 4294967296) % 4294967296) % 4294967296
      ≡ n + k + 11
u32_total n k h = omega arith

prepend_router_header-routed_part :
    (segment : Bytes) (w : Bool) (clrid : ℕ) (payload : Bytes)
    → length segment + length payload + 11 < 4294967296
    → prepend_router_header segment w clrid payload
      ≡ router_magic ∷ u32_le (length (routed_part segment w clrid payload))
        ++ routed_part segment w clrid payload
unfolding prepend_router_header
prepend_router_header-routed_part segment w clrid payload h = rw length-routed_part (
    unfold routed_part prepend_header in
    rw (
      u32_total (length segment) (length payload) h,
      u32_mod (length segment) (omega arith),
      u32_mod (length payload) (omega arith),
    ))

shard_alone :
    (clrid : ℕ) (payload : Bytes)
    → IsU32 clrid
    → IsU32 (length payload)
    → read_shard (prepend_header clrid payload) ≡ some (shard clrid payload [])
shard_alone clrid payload h k = rw append-nil at (read_shard-prepend_header clrid payload [] h k)

write_flag : (w : Bool) → ((if w then 0x01 else 0x00) == 0x01) ≡ w
write_flag true = refl
write_flag false = refl

module _ (segment : Bytes) (w : Bool) (clrid : ℕ) (payload : Bytes) (h : IsU32 clrid) where
  route-prepend_header :
      IsU32 (length payload)
      → route segment ((if w then 0x01 else 0x00) ∷ prepend_header clrid payload)
        ≡ some (record { segment = segment; is_write = w; clrid = clrid; payload = payload })
  unfolding route
  route-prepend_header k = rw (shard_alone clrid payload h k, route, write_flag w)

  read_routed-routed_part :
      IsU32 (length payload)
      → length segment < 256
      → read_routed (routed_part segment w clrid payload)
        ≡ some (record { segment = segment; is_write = w; clrid = clrid; payload = payload })
  unfolding read_routed routed_part
  read_routed-routed_part k l = rw (
    mod-eq_of_lt l,
    fits segment ((if w then 0x01 else 0x00) ∷ prepend_header clrid payload),
    take-append,
    drop-append,
    route-prepend_header k,
  )

  -- A router reads back the segment, the write flag, the correlation id and the payload that
  -- `prepend_router_header` was given, whatever bytes follow, if the id is a u32, the segment has
  -- fewer than 256 bytes and the whole frame's length fits its four bytes.
  pub read_router-prepend_router_header :
      (rest : Bytes)
      → length segment < 256
      → length segment + length payload + 11 < 4294967296
      → read_router (prepend_router_header segment w clrid payload ++ rest)
        ≡ some (record { segment = segment; is_write = w; clrid = clrid; payload = payload }, rest)
  unfolding read_router
  read_router-prepend_router_header rest l k =
      rw
        (
          prepend_router_header-routed_part segment w clrid payload k,
          from_u32_le-u32_le (length (routed_part segment w clrid payload))
              (omega (arith, length-routed_part segment w clrid payload)),
          fits (routed_part segment w clrid payload) rest,
          take-append,
          read_routed-routed_part (omega arith) l,
          read_router,
        )
        (rw (
          from_u32_le-u32_le (length (routed_part segment w clrid payload))
              (omega (arith, length-routed_part segment w clrid payload)),
          drop-append,
        ))

-- The keepalive frame is the router frame of an empty payload for the control segment.
pub build_keepalive_frame-eq :
    build_keepalive_frame ≡ prepend_router_header keepalive_segment false 0 []
unfolding build_keepalive_frame prepend_router_header
build_keepalive_frame-eq = refl
