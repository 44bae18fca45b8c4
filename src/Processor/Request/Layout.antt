-- ===== src/Processor/Request/Layout.antt =====
-- The format of a binary request: a prologue with the command's name, and its fields. What the
-- processors write with a literal count, and with the closure `add_field`, is in this format, and an
-- independent reader gets the name and the fields back.
use native.Mathlib.Nat.{suc-add}
use rzgate.Prelude.{
  ℕ, zero, suc, ◌+◌, ◌%◌, ◌/◌, ◌<◌, ◌≡◌, refl, sym, ap, ◌∙◌, List, [], ◌∷◌, ◌++◌, append_assoc,
  append-nil, arith, All, length, length-append, set,
}
use rzgate.Bytes.{Bytes, IsU16, IsU32, u16_le}
use rzgate.Flow.{Flow, next, ◌>>=◌, slice}
use rzgate.Protocol.{Field}
use rzgate.Protocol.Reply.{read_prologue, read_head}
use rzgate.Protocol.Reply.Encoding.{
  encode_prologue, encode_field, encode_fields, Fits, length-encode_prologue, length-encode_field,
  read_prologue-encode_prologue, read_head-encode_field, slice-encode_field,
}
use rzgate.Processor.Request.{field, counted, Builder, begin, add_field, patch, finish}

unfoldable pub encode_request : Bytes → List Field → Bytes
encode_request cmd_name fields = encode_prologue cmd_name (length fields) ++ encode_fields fields

abbrev pub text_field : ℕ → Bytes → Field
text_field id s = record { id = id; field_type = 0x01; payload = s }

-- The reader: as many fields as the prologue says, one behind the other.
unfoldable read_fields : ℕ → Bytes → ℕ → Flow (List Field)
read_fields zero bytes offset = next []
read_fields (suc n) bytes offset = do
  h ← read_head bytes offset
  payload ← slice bytes (offset + 7) (offset + 7 + h.len)
  rest ← read_fields n bytes (offset + 7 + h.len)
  next (record { id = h.id; field_type = h.field_type; payload = payload } ∷ rest)

unfoldable pub read_request : Bytes → Flow (Bytes × List Field)
unfolding read_fields
read_request bytes = do
  p ← read_prologue bytes
  fields ← read_fields p.field_count bytes p.offset
  next (p.status, fields)

read_fields-encode_fields :
    (pre : Bytes) (fields : List Field) (offset : ℕ)
    → All Fits fields
    → offset ≡ length pre
    → read_fields (length fields) (pre ++ encode_fields fields) offset ≡ next fields
unfolding read_fields
read_fields-encode_fields pre [] offset fits at = refl
read_fields-encode_fields pre (f ∷ fs) offset fits at = rw (
  read_head-encode_field pre f (encode_fields fs) fits.0 offset at,
  slice-encode_field pre f (encode_fields fs) fits.0 offset at,
  ← append_assoc pre (encode_field f) (encode_fields fs),
  read_fields-encode_fields (pre ++ encode_field f) fs (offset + 7 + length f.payload) fits.1
      (omega (arith, length-append pre (encode_field f), length-encode_field f)),
)

-- The reader gets back the command and the fields of every request whose counts fit their widths.
pub read_request-encode_request :
    (cmd_name : Bytes) (fields : List Field)
    → All Fits fields
    → IsU16 (length fields)
    → read_request (encode_request cmd_name fields) ≡ next (cmd_name, fields)
unfolding read_request encode_request
read_request-encode_request cmd_name fields fits few = rw (
  read_prologue-encode_prologue cmd_name (length fields) (encode_fields fields) few,
  read_fields-encode_fields (encode_prologue cmd_name (length fields)) fields _ fits
      (sym (length-encode_prologue cmd_name (length fields))),
)

pub field_lem : (f : Field) → Fits f → field f.id f.field_type f.payload ≡ encode_field f
unfolding field encode_field
field_lem f fits = rw (small (length f.payload) fits.len_fits)
  where
    small : (n : ℕ) → IsU32 n → n % 4294967296 ≡ n
    small n h = omega arith

pub counted_lem :
    (cmd_name : Bytes) (n : ℕ)
    → length cmd_name < 256
    → counted cmd_name n ≡ encode_prologue cmd_name n
unfolding counted encode_prologue
counted_lem cmd_name n short = rw (small (length cmd_name) short)
  where
    small : (k : ℕ) → k < 256 → k % 256 ≡ k
    small k h = omega arith

set_two :
    (xs rest : Bytes) (a b u v : ℕ)
    → set (set (xs ++ (a ∷ b ∷ rest)) (length xs) u) (length xs + 1) v ≡ xs ++ (u ∷ v ∷ rest)
set_two [] rest a b u v = refl
set_two (x ∷ xs) rest a b u v = rw (suc-add (length xs) 1) (ap (◌∷◌ x) (set_two xs rest a b u v))

-- A builder that has been given exactly these fields.
pub record Built (cmd_name : Bytes) (fields : List Field) (b : Builder) : Type 0 where
  pub same_bytes : b.buf ≡ encode_prologue cmd_name 0 ++ encode_fields fields
  pub same_count : b.field_count ≡ length fields

encode_fields-append :
    (fs : List Field) (f : Field)
    → encode_fields (fs ++ (f ∷ [])) ≡ encode_fields fs ++ encode_field f
encode_fields-append [] f = append-nil (encode_field f)
encode_fields-append (g ∷ fs) f = rw (encode_fields-append fs f, append_assoc)

module _ (cmd_name : Bytes) (short : length cmd_name < 256) where
  pub begin-Built : Built cmd_name [] (begin cmd_name)
  unfolding begin counted
  begin-Built = record {
    same_bytes = counted_lem cmd_name 0 short ∙ sym (append-nil _);
    same_count = refl;
  }

  pub add_field-Built :
      (fields : List Field) (b : Builder) (f : Field)
      → Built cmd_name fields b
      → Fits f
      → length fields + 1 < 65536
      → Built cmd_name (fields ++ (f ∷ [])) (add_field b f.id f.field_type f.payload)
  unfolding add_field
  add_field-Built fields b f built fits few = record {
    same_bytes =
        rw (built.same_bytes, field_lem f fits, encode_fields-append fields f, append_assoc);
    same_count = omega (arith, built.same_count, length-append fields (f ∷ []));
  }

  patch_lem :
      (n : ℕ) (b : Builder) (rest : Bytes)
      → b.buf ≡ encode_prologue cmd_name 0 ++ rest
      → patch cmd_name n b ≡ encode_prologue cmd_name n ++ rest
  unfolding patch encode_prologue
  patch_lem n b rest e =
      ap (λ buf. set (set buf (length head) (n % 256)) (length head + 1) (n / 256 % 256))
        (e ∙ append_assoc head (u16_le 0) rest)
      ∙ set_two head rest 0 0 (n % 256) (n / 256 % 256)
      ∙ sym (append_assoc head (u16_le n) rest)
    where
      head : Bytes
      head = length cmd_name ∷ cmd_name

  -- A patch with a literal count, which is that of the fields.
  pub patch-Built :
      (fields : List Field) (b : Builder)
      → Built cmd_name fields b
      → patch cmd_name (length fields) b ≡ encode_request cmd_name fields
  unfolding encode_request
  patch-Built fields b built = patch_lem (length fields) b (encode_fields fields) built.same_bytes

  -- The patch with the kept count puts the count in its place.
  pub finish-Built :
      (fields : List Field) (b : Builder)
      → Built cmd_name fields b
      → finish cmd_name b ≡ encode_request cmd_name fields
  unfolding encode_request
  finish-Built fields b built =
      rw (patch_lem b.field_count b (encode_fields fields) built.same_bytes, built.same_count)

-- Requests written with a literal count.
module _ (cmd_name : Bytes) (short : length cmd_name < 256) where
  pub counted_one :
      (f : Field)
      → Fits f
      → counted cmd_name 1 ++ field f.id f.field_type f.payload ≡ encode_request cmd_name (f ∷ [])
  unfolding encode_request
  counted_one f hf = rw (counted_lem cmd_name 1 short, field_lem f hf, append-nil)

  pub counted_two :
      (f g : Field)
      → Fits f
      → Fits g
      → counted cmd_name 2
          ++ (field f.id f.field_type f.payload ++ field g.id g.field_type g.payload)
        ≡ encode_request cmd_name (f ∷ g ∷ [])
  unfolding encode_request
  counted_two f g hf hg =
      rw (counted_lem cmd_name 2 short, field_lem f hf, field_lem g hg, append-nil)

  pub counted_three :
      (f g h : Field)
      → Fits f
      → Fits g
      → Fits h
      → counted cmd_name 3
          ++ (field f.id f.field_type f.payload
              ++ (field g.id g.field_type g.payload ++ field h.id h.field_type h.payload))
        ≡ encode_request cmd_name (f ∷ g ∷ h ∷ [])
  unfolding encode_request
  counted_three f g h hf hg hh =
      rw (counted_lem cmd_name 3 short, field_lem f hf, field_lem g hg, field_lem h hh, append-nil)
