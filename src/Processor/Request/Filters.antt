-- ===== src/Processor/Request/Filters.antt =====
-- The optional fields of a request, described by a table: the field's id, its key in the payload and the kind
-- of its value. A field is there exactly if the key holds a value of its kind.
use rzgate.Prelude.{
  ℕ, ◌+◌, ◌%◌, ◌^◌, ◌<◌, ◌≤◌, ◌≡◌, Bool-cases, inl, inr, refl, sym, ap, ◌&&◌, leb, Option, some,
  none, List, [], ◌∷◌, ◌++◌, append_assoc, append-nil, length, length-append, All, arith,
  if◌then◌else◌,
}
use rzgate.Bytes.{Bytes, IsU16, IsU32, u32_le, u64_le}
use rzgate.F64.{in_range}
use rzgate.Protocol.{Field}
use rzgate.Document.{after_commas, joined}
use rzgate.Processor.SetProp.{join}
use rzgate.Processor.SetRoomPkg.{rate_feature_of}
use rzgate.Processor.Json.{Json, text, number, float, texts}
use rzgate.Processor.Request.{Builder, add_optional, finish}
use rzgate.Processor.Request.Layout.{encode_request, Built, add_field-Built, finish-Built}
use rzgate.Processor.Request.Required.{IsShort}

-- A slot for a field: the id, the type and the data, if there are any.
abbrev pub Slot : Type 0
Slot = ℕ × ℕ × Option Bytes

abbrev pub add_all : Builder → List Slot → Builder
add_all b [] = b
add_all b ((id, typ, o) ∷ slots) = add_all (add_optional b id typ o) slots

-- The field, if there is data for it.
abbrev pub optional : ℕ → ℕ → Option Bytes → List Field
optional id typ none = []
optional id typ (some payload) = record { id = id; field_type = typ; payload = payload } ∷ []

abbrev pub fields_of : List Slot → List Field
fields_of [] = []
fields_of ((id, typ, o) ∷ slots) = optional id typ o ++ fields_of slots

abbrev pub IsShortOption : Option Bytes → Type 0
IsShortOption none = Unit
IsShortOption (some s) = IsU32 (length s)

abbrev pub SlotFits : Slot → Type 0
SlotFits (id, typ, o) = IsU16 id × IsShortOption o

add_optional-Built :
    (cmd_name : Bytes) (fields : List Field) (b : Builder) (id typ : ℕ) (o : Option Bytes)
    → length cmd_name < 256
    → Built cmd_name fields b
    → SlotFits (id, typ, o)
    → length fields + 1 < 65536
    → Built cmd_name (fields ++ optional id typ o) (add_optional b id typ o)
unfolding add_optional
add_optional-Built cmd_name fields b id typ none named built fits few = rw append-nil built
add_optional-Built cmd_name fields b id typ (some s) named built fits few =
    add_field-Built cmd_name named fields b (record { id = id; field_type = typ; payload = s })
      built (record { id_fits = fits.0; len_fits = fits.1 }) few

length-optional : (id typ : ℕ) (o : Option Bytes) → length (optional id typ o) ≤ 1
length-optional id typ none = omega arith
length-optional id typ (some s) = omega arith

pub add_all-Built :
    (cmd_name : Bytes) (fields : List Field) (b : Builder) (slots : List Slot)
    → length cmd_name < 256
    → Built cmd_name fields b
    → All SlotFits slots
    → length fields + length slots < 65536
    → Built cmd_name (fields ++ fields_of slots) (add_all b slots)
add_all-Built cmd_name fields b [] named built fits few = rw append-nil built
add_all-Built cmd_name fields b ((id, typ, o) ∷ slots) named built fits few =
    rw (← append_assoc fields (optional id typ o) (fields_of slots)) (
      add_all-Built cmd_name (fields ++ optional id typ o) (add_optional b id typ o) slots named
        (add_optional-Built cmd_name fields b id typ o named built fits.0 (omega arith)) fits.1
        (omega (arith, length-append fields (optional id typ o), length-optional id typ o)))

-- The finished request has the fields, and those of the slots.
pub finish-add_all :
    (cmd_name : Bytes) (fields : List Field) (b : Builder) (slots : List Slot)
    → length cmd_name < 256
    → Built cmd_name fields b
    → All SlotFits slots
    → length fields + length slots < 65536
    → finish cmd_name (add_all b slots) ≡ encode_request cmd_name (fields ++ fields_of slots)
finish-add_all cmd_name fields b slots named built fits few =
    finish-Built cmd_name named _ _ (add_all-Built cmd_name fields b slots named built fits few)

-- A text, a number as one byte, the lower 32 bits or all 64 bits of a number, an f64 with or without a range,
-- and the texts of an array with commas between them.
pub data Kind : Type 0 where
  word : Kind
  byte_in : ℕ → ℕ → Kind
  low_u32 : Kind
  whole_u64 : Kind
  degrees : Kind
  degrees_in : ℕ → ℕ → Kind
  words : Kind

abbrev pub type_of : Kind → ℕ
type_of word = 0x01
type_of words = 0x01
type_of (byte_in _ _) = 0x02
type_of _ = 0x03

abbrev pub byte_between : ℕ → ℕ → Option ℕ → Option Bytes
byte_between lo hi none = none
byte_between lo hi (some n) = if leb lo n && leb n hi then some (n ∷ []) else none

abbrev pub u32_of : Option ℕ → Option Bytes
u32_of none = none
u32_of (some n) = some (u32_le (n % 2 ^ 32))

abbrev pub u64_of : Option ℕ → Option Bytes
u64_of none = none
u64_of (some n) = some (u64_le n)

abbrev pub f64_between : ℕ → ℕ → Option ℕ → Option Bytes
f64_between lo hi none = none
f64_between lo hi (some x) = if in_range lo hi x then some (u64_le x) else none

-- The texts of an array that is not empty, with commas between them.
abbrev pub comma_words : Option (List Bytes) → Option Bytes
comma_words none = none
comma_words (some []) = none
comma_words (some (s ∷ ss)) = some (joined (s ∷ ss))

join-after_commas : (s : Bytes) (ss : List Bytes) → join (s ∷ ss) ≡ s ++ after_commas ss
join-after_commas s [] = sym (append-nil s)
join-after_commas s (t ∷ ts) = ap (λ rest. s ++ (b',' ∷ rest)) (join-after_commas t ts)

pub rate_feature_of-comma_words : (o : Option (List Bytes)) → rate_feature_of o ≡ comma_words o
unfolding rate_feature_of
rate_feature_of-comma_words none = refl
rate_feature_of-comma_words (some []) = refl
rate_feature_of-comma_words (some (s ∷ ss)) = ap some (join-after_commas s ss)

byte_between-IsShortOption : (lo hi : ℕ) (o : Option ℕ) → IsShortOption (byte_between lo hi o)
byte_between-IsShortOption lo hi none = tt
byte_between-IsShortOption lo hi (some n) = elim (Bool-cases (leb lo n && leb n hi)) [
  | inl e ↦ rw e (omega arith)
  | inr e ↦ rw e tt
]

f64_between-IsShortOption : (lo hi : ℕ) (o : Option ℕ) → IsShortOption (f64_between lo hi o)
f64_between-IsShortOption lo hi none = tt
f64_between-IsShortOption lo hi (some x) = elim (Bool-cases (in_range lo hi x)) [
  | inl e ↦ rw e (omega arith)
  | inr e ↦ rw e tt
]

u32_of-IsShortOption : (o : Option ℕ) → IsShortOption (u32_of o)
u32_of-IsShortOption none = tt
u32_of-IsShortOption (some n) = omega arith

u64_of-IsShortOption : (o : Option ℕ) → IsShortOption (u64_of o)
u64_of-IsShortOption none = tt
u64_of-IsShortOption (some n) = omega arith

some-IsShortOption :
    (o : Option Bytes) → ((s : Bytes) → o ≡ some s → IsU32 (length s)) → IsShortOption o
some-IsShortOption none h = tt
some-IsShortOption (some s) h = h s refl

module _ (json : Json) where
  open json use {Value}

  abbrev pub value_of : Value → Kind → Bytes → Option Bytes
  value_of payload word key = text json payload key
  value_of payload (byte_in lo hi) key = byte_between lo hi (number json payload key)
  value_of payload low_u32 key = u32_of (number json payload key)
  value_of payload whole_u64 key = u64_of (number json payload key)
  value_of payload degrees key = u64_of (float json payload key)
  value_of payload (degrees_in lo hi) key = f64_between lo hi (float json payload key)
  value_of payload words key = comma_words (texts json payload key)

  abbrev pub slots_of : Value → List (ℕ × Kind × Bytes) → List Slot
  slots_of payload [] = []
  slots_of payload ((id, kind, key) ∷ rows) =
      (id, type_of kind, value_of payload kind key) ∷ slots_of payload rows

  -- The optional fields of a payload.
  abbrev pub filters : Value → List (ℕ × Kind × Bytes) → List Field
  filters payload rows = fields_of (slots_of payload rows)

  -- The texts of the payload's arrays, with commas between them, have lengths of 32 bits.
  abbrev pub IsShortWords : Value → Type 0
  IsShortWords payload = (key : Bytes) → IsShortOption (comma_words (texts json payload key))

  module _ (payload : Value) (short : IsShort json payload)
      (short_words : IsShortWords payload) where
    value_of-IsShortOption : (kind : Kind) (key : Bytes) → IsShortOption (value_of payload kind key)
    value_of-IsShortOption word key = some-IsShortOption _ (short key)
    value_of-IsShortOption (byte_in lo hi) key = byte_between-IsShortOption lo hi _
    value_of-IsShortOption low_u32 key = u32_of-IsShortOption _
    value_of-IsShortOption whole_u64 key = u64_of-IsShortOption _
    value_of-IsShortOption degrees key = u64_of-IsShortOption _
    value_of-IsShortOption (degrees_in lo hi) key = f64_between-IsShortOption lo hi _
    value_of-IsShortOption words key = short_words key

    pub slots_of-SlotFits :
        (rows : List (ℕ × Kind × Bytes))
        → All (λ row. IsU16 row.0) rows
        → All SlotFits (slots_of payload rows)
    slots_of-SlotFits [] h = tt
    slots_of-SlotFits ((id, kind, key) ∷ rows) h =
        ((h.0, value_of-IsShortOption kind key), slots_of-SlotFits rows h.1)
