-- ===== src/Protocol/Reply/Encoding.antt =====
-- The wire format of a response, as the doc comments of src/protocol/response.rs describe it, and
-- what the shared beginning of the decoders reads off it.
use rzgate.Prelude.{
  ℕ, ◌+◌, ◌≡◌, refl, ◌∙◌, false, List, [], ◌∷◌, ◌++◌, length, length-append, append_assoc, arith,
  ltb, le→ltb, ==_false,
}
use rzgate.Bytes.{Bytes, IsU16, IsU32, u16_le, u32_le}
use rzgate.Bytes.Words.{from_u16_le-u16_le, from_u32_le-u32_le}
use rzgate.Flow.{next, index, slice, read_u16, read_u32}
use rzgate.Flow.Append.{
  index-append, read_u16-append, read_u32-append, slice-append, read_u16-u16_le,
}
use rzgate.Protocol.{Field}
use rzgate.Protocol.Reply.{read_prologue, read_head}

-- | statusLen(1) | status | fieldCount(2) |
unfoldable pub encode_prologue : Bytes → ℕ → Bytes
encode_prologue status n = length status ∷ status ++ u16_le n

-- | id(2) | type(1) | length(4) | data |
unfoldable pub encode_field : Field → Bytes
encode_field f = u16_le f.id ++ (f.field_type ∷ u32_le (length f.payload) ++ f.payload)

abbrev pub encode_fields : List Field → Bytes
encode_fields [] = []
encode_fields (f ∷ fs) = encode_field f ++ encode_fields fs

-- The fields fit the widths of their heads.
pub record Fits (f : Field) : Type 0 where
  pub id_fits : IsU16 f.id
  pub len_fits : IsU32 (length f.payload)

pub length-encode_prologue :
    (status : Bytes) (n : ℕ) → length (encode_prologue status n) ≡ 1 + length status + 2
unfolding encode_prologue
length-encode_prologue status n = omega (arith, length-append status (u16_le n))

pub length-encode_field : (f : Field) → length (encode_field f) ≡ 7 + length f.payload
unfolding encode_field
length-encode_field f = omega arith

pub read_prologue-encode_prologue :
    (status : Bytes) (n : ℕ) (rest : Bytes)
    → IsU16 n
    → read_prologue (encode_prologue status n ++ rest)
      ≡ next (record { status = status; field_count = n; offset = 1 + length status + 2 })
unfolding read_prologue encode_prologue index
read_prologue-encode_prologue status n rest h =
    rw (==_false (length bytes) 0 (λ e. omega arith), long, status_read, count_read)
  where
    bytes : Bytes
    bytes = length status ∷ status ++ u16_le n ++ rest

    long : ltb (length bytes) (1 + length status + 2) ≡ false
    long =
        le→ltb _ _
          (omega (arith, length-append (status ++ u16_le n) rest, length-append status (u16_le n)))

    status_read : slice bytes 1 (1 + length status) ≡ next status
    status_read = rw (append_assoc) (
        slice-append (length status ∷ []) status (u16_le n ++ rest) 1 (1 + length status) refl refl)

    count_read : read_u16 bytes (1 + length status) ≡ next n
    count_read = rw (append_assoc) (
        read_u16-append (length status ∷ status) (u16_le n ++ rest) (1 + length status) 0
          (omega arith)
        ∙ read_u16-u16_le n rest h)

module _ (pre : Bytes) (f : Field) (rest : Bytes) (fits : Fits f) (offset : ℕ)
    (at : offset ≡ length pre) where
  pub read_head-encode_field :
      read_head (pre ++ (encode_field f ++ rest)) offset
      ≡ next (record { id = f.id; field_type = f.field_type; len = length f.payload })
  unfolding read_head encode_field
  read_head-encode_field =
      rw
        (
          read_u16-append pre (encode_field f ++ rest) offset 0 (omega arith),
          index-append pre (encode_field f ++ rest) (offset + 2) 2 (omega arith),
          read_u32-append pre (encode_field f ++ rest) (offset + 3) 3 (omega arith),
        )
        (unfold read_u16 read_u32 index in
          rw (
            from_u16_le-u16_le f.id fits.id_fits,
            from_u32_le-u32_le (length f.payload) fits.len_fits,
          ))

  pub slice-encode_field :
      slice (pre ++ (encode_field f ++ rest)) (offset + 7) (offset + 7 + length f.payload)
      ≡ next f.payload
  unfolding encode_field
  slice-encode_field =
      rw
        (
          ← append_assoc pre (encode_field f) rest,
          ← append_assoc pre head f.payload,
          append_assoc (pre ++ head) f.payload rest,
        )
        (slice-append (pre ++ head) f.payload rest (offset + 7) (offset + 7 + length f.payload)
          (omega (arith, length-append pre head)) (omega (arith, length-append pre head)))
    where
      head : Bytes
      head = u16_le f.id ++ (f.field_type ∷ u32_le (length f.payload))
