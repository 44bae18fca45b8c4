-- ===== src/Protocol/Reply/Located.antt =====
-- A field that stands in a payload at a known offset: what the tests and the reads of every decoder give there.
use rzgate.Prelude.{ℕ, ◌+◌, ◌≡◌, true, false, leb, ltb, ◌++◌, length, length-append, arith}
use rzgate.Bytes.{Bytes}
use rzgate.Flow.{next, slice}
use rzgate.Protocol.{Field}
use rzgate.Protocol.Reply.{Head, read_head}
use rzgate.Protocol.Reply.Encoding.{
  encode_field, Fits, length-encode_field, read_head-encode_field, slice-encode_field,
}

abbrev pub head_of : Field → Head
head_of f = record { id = f.id; field_type = f.field_type; len = length f.payload }

-- The field stands behind `pre` and before `rest`.
pub record Located (bytes pre : Bytes) (f : Field) (rest : Bytes) (offset : ℕ) : Type 0 where
  pub shape : bytes ≡ pre ++ (encode_field f ++ rest)
  pub at : offset ≡ length pre
  pub fits : Fits f

module _ (bytes pre : Bytes) (f : Field) (rest : Bytes) (offset : ℕ)
    (located : Located bytes pre f rest offset) where
  open located use {shape, at, fits}

  pub length-located : length bytes ≡ offset + 7 + length f.payload + length rest
  length-located = rw shape (
      omega (
        arith,
        length-append pre (encode_field f ++ rest),
        length-append (encode_field f) rest,
        length-encode_field f,
      ))

  pub head_located : read_head bytes offset ≡ next (head_of f)
  head_located = rw shape (read_head-encode_field pre f rest fits offset at)

  pub slice_located : slice bytes (offset + 7) (offset + 7 + length f.payload) ≡ next f.payload
  slice_located = rw shape (slice-encode_field pre f rest fits offset at)

  -- There is a head, as the loops test it and as the single reads test it.
  pub more_located : leb (offset + 7) (length bytes) ≡ true
  more_located = ground (arith, length-located)

  pub long_located : ltb (length bytes) (offset + 7) ≡ false
  long_located = ground (arith, length-located)

  -- The data are complete.
  pub inside_located : ltb (length bytes) (offset + 7 + length f.payload) ≡ false
  inside_located = ground (arith, length-located)
