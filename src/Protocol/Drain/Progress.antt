-- ===== src/Protocol/Drain/Progress.antt =====
-- `drain_frame_async` never panics, and what it takes off the stream.
use rzgate.Prelude.{
  ℕ, ◌+◌, ◌≤◌, ◌≡◌, refl, true, not, [], ◌∷◌, ◌++◌, length, arith, ◌==◌, ltb, append_assoc,
  append-nil,
}
use rzgate.Bytes.{Bytes}
use rzgate.Flow.{index}
use rzgate.Flow.Rules.{
  Returns, value, index_lt, read_u16_lt, read_u32_lt, slice_le, Returns-from, Returns-if,
  Returns-bind,
}
use rzgate.Protocol.Drain.{
  received, failed, Reader, Filled, fill, parse_payload, drain_payload, drain_frame_async,
}

-- The bytes that a stream still brings, up to its end or its first error.
abbrev pub pending : Reader → Bytes
pending [] = []
pending (failed ∷ _) = []
pending (received [] ∷ _) = []
pending (received (b ∷ bs) ∷ r) = (b ∷ bs) ++ pending r

pub fill_enough :
    (need : ℕ) (buf : Bytes) (r : Reader)
    → (fill need buf r).enough ≡ true
    → need ≤ length (fill need buf r).buf
unfolding fill
fill_enough need buf [] h = ground arith
fill_enough need buf (failed ∷ r) h = ground arith
fill_enough need buf (received [] ∷ r) h = ground arith
fill_enough need buf (received (b ∷ bs) ∷ r) h =
    ground (arith, fill_enough need (buf ++ (b ∷ bs)) r)

-- Filling moves bytes from the stream to the buffer; it makes up none and loses none.
pub fill-pending :
    (need : ℕ) (buf : Bytes) (r : Reader)
    → (fill need buf r).enough ≡ true
    → (fill need buf r).buf ++ pending (fill need buf r).reader ≡ buf ++ pending r
unfolding fill
fill-pending need buf [] h = refl
fill-pending need buf (failed ∷ r) h = ground arith
fill-pending need buf (received [] ∷ r) h = ground arith
fill-pending need buf (received (b ∷ bs) ∷ r) h =
    ground (arith, fill-pending need (buf ++ (b ∷ bs)) r, append_assoc buf (b ∷ bs) (pending r))

-- Enough bytes on the stream are enough.
pub fill_succeeds :
    (need : ℕ) (buf : Bytes) (r : Reader)
    → need ≤ length (buf ++ pending r)
    → (fill need buf r).enough ≡ true
unfolding fill
fill_succeeds need buf [] h = ground (arith, append-nil buf)
fill_succeeds need buf (failed ∷ r) h = ground (arith, append-nil buf)
fill_succeeds need buf (received [] ∷ r) h = ground (arith, append-nil buf)
fill_succeeds need buf (received (b ∷ bs) ∷ r) h =
    ground (arith, fill_succeeds need (buf ++ (b ∷ bs)) r, append_assoc buf (b ∷ bs) (pending r))

parse_payload-Returns : (clr_id : ℕ) (payload : Bytes) → Returns (parse_payload clr_id payload)
unfolding parse_payload
parse_payload-Returns clr_id payload =
    Returns-if (length payload == 0) _ _ (λ _. value _)
      λ nonempty. Returns-from (index payload 0) _ (index_lt payload 0 (ground arith)) λ n _.
        Returns-if (ltb (length payload) (1 + n + 2)) _ _ (λ _. value _)
          λ long. Returns-from _ _ (read_u16_lt payload (1 + n) (ground arith)) λ _ _. value _

drain_payload-Returns : (f : Filled) → 9 ≤ length f.buf → Returns (drain_payload f)
unfolding drain_payload
drain_payload-Returns f h = Returns-from _ _ (read_u32_lt f.buf 1 (omega arith)) λ clr_id _.
    Returns-from _ _ (read_u32_lt f.buf 5 (omega arith)) λ n _.
      Returns-if (not (fill (9 + n) f.buf f.reader).enough) _ _ (λ _. value _)
        λ filled.
          let (s, e, _) =
            slice_le (fill (9 + n) f.buf f.reader).buf 9 (9 + n) (omega arith)
              (fill_enough (9 + n) f.buf f.reader (ground arith)) in
          Returns-from _ _ (s, e)
            λ p _. Returns-bind _ (parse_payload-Returns clr_id p) λ _. value _

-- `drain_frame_async` never panics and always ends, whatever the stream and the buffer hold.
pub drain_frame_async-Returns :
    (reader : Reader) (buf : Bytes) → Returns (drain_frame_async reader buf)
unfolding drain_frame_async
drain_frame_async-Returns reader buf =
    Returns-if (not (fill 9 buf reader).enough) _ _ (λ _. value _)
      λ filled.
        let long : 9 ≤ length (fill 9 buf reader).buf = fill_enough 9 buf reader (ground arith) in
        Returns-from _ _ (index_lt (fill 9 buf reader).buf 0 (omega arith)) λ m _.
          Returns-if (not (m == 0xFF)) _ _ (λ _. value _)
            λ _. drain_payload-Returns (fill 9 buf reader) long
