-- ===== src/Protocol/Response/Scalar.antt =====
-- How the decoders read a response with one field of one byte.
use rzgate.Prelude.{
  ℕ, ◌+◌, ◌≡◌, sym, ap, false, [], ◌∷◌, ◌++◌, length, length-append, arith, ltb, leb,
}
use rzgate.Bytes.{Bytes}
use rzgate.Flow.{next, index}
use rzgate.Flow.Append.{index-append}
use rzgate.Protocol.{Field}
use rzgate.Protocol.Reply.{success, Prologue, read_head}
use rzgate.Protocol.Reply.Encoding.{
  encode_prologue, encode_field, Fits, length-encode_prologue, length-encode_field,
  read_head-encode_field,
}
use rzgate.Protocol.Response.{read_scalar_u8}

-- A response with one field.
abbrev pub one_field : Bytes → Field → Bytes → Bytes
one_field status f rest = encode_prologue status 1 ++ (encode_field f ++ rest)

abbrev pub scalar_field : ℕ → Field
scalar_field v = record { id = 1; field_type = 0x02; payload = v ∷ [] }

scalar_Fits : (v : ℕ) → Fits (scalar_field v)
scalar_Fits v = omega arith

abbrev pub prologue_of : Bytes → Prologue
prologue_of status = record { status = status; field_count = 1; offset = 1 + length status + 2 }

-- Where the one field begins, and how long the whole is.
pub offset_of : (status : Bytes) → (prologue_of status).offset ≡ length (encode_prologue status 1)
offset_of status = sym (length-encode_prologue status 1)

pub length-one_field :
    (status : Bytes) (f : Field) (rest : Bytes)
    → length (one_field status f rest)
      ≡ (prologue_of status).offset + 7 + length f.payload + length rest
length-one_field status f rest = omega (
  arith,
  length-append (encode_prologue status 1) (encode_field f ++ rest),
  length-append (encode_field f) rest,
  length-encode_prologue status 1,
  length-encode_field f,
)

pub read_head-one_field :
    (status : Bytes) (f : Field) (rest : Bytes)
    → Fits f
    → read_head (one_field status f rest) (prologue_of status).offset
      ≡ next (record { id = f.id; field_type = f.field_type; len = length f.payload })
read_head-one_field status f rest fits =
    read_head-encode_field (encode_prologue status 1) f rest fits _ (offset_of status)

index-scalar_field :
    (v : ℕ) (rest : Bytes)
    → index (one_field success (scalar_field v) rest) ((prologue_of success).offset + 7) ≡ next v
unfolding encode_field index
index-scalar_field v rest =
    index-append (encode_prologue success 1) (encode_field (scalar_field v) ++ rest)
      ((prologue_of success).offset + 7) 7 (ap (λ (k : ℕ). k + 7) (offset_of success))

pub read_scalar_u8-scalar_field :
    (v : ℕ) (rest : Bytes)
    → read_scalar_u8 (one_field success (scalar_field v) rest) (prologue_of success) ≡ next v
unfolding read_scalar_u8
read_scalar_u8-scalar_field v rest =
    rw (long, read_head-one_field success (scalar_field v) rest (scalar_Fits v), inside)
      (index-scalar_field v rest)
  where
    long :
        ltb (length (one_field success (scalar_field v) rest)) ((prologue_of success).offset + 7)
        ≡ false
    long = ground (arith, length-one_field success (scalar_field v) rest)

    inside :
        leb (length (one_field success (scalar_field v) rest)) ((prologue_of success).offset + 7)
        ≡ false
    inside = ground (arith, length-one_field success (scalar_field v) rest)
