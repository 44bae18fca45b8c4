-- ===== src/Processor/Samples.antt =====
-- A concrete `serde_json`, for the tests: values without nesting, and one object.
use rzgate.Prelude.{
  ℕ, ◌≡◌, refl, ap, true, Bool-cases, Option-cases, inl, inr, Option, none, some, List, [], ◌∷◌,
  All, equal, length, arith, map, if◌then◌else◌,
}
use rzgate.Bytes.{Bytes, codes, IsU32}
use rzgate.Processor.Json.{Json, and_then, texts_of}
use rzgate.Processor.Request.Required.{IsShort}
use rzgate.Processor.Request.Filters.{IsShortOption, IsShortWords}
use rzgate.Processor.Request.Filters.{comma_words}

-- JSON values without nesting, and one object.
pub data Sample : Type 0 where
  word : Bytes → Sample
  integer : ℕ → Sample
  real : ℕ → Sample
  words : List Bytes → Sample
  object : Sample

abbrev pub Table : Type 0
Table = List (Bytes × Sample)

abbrev pub find : Table → Bytes → Option Sample
find [] key = none
find ((k, v) ∷ t) key = if equal k key then some v else find t key

abbrev pub get_from : Table → Sample → Bytes → Option Sample
get_from t (word _) key = none
get_from t (integer _) key = none
get_from t (real _) key = none
get_from t (words _) key = none
get_from t object key = find t key

abbrev pub str_of : Sample → Option Bytes
str_of (word s) = some s
str_of _ = none

abbrev pub int_of : Sample → Option ℕ
int_of (integer n) = some n
int_of _ = none

abbrev pub real_of : Sample → Option ℕ
real_of (real x) = some x
real_of _ = none

abbrev pub words_of : Sample → Option (List Sample)
words_of (words ws) = some (map word ws)
words_of _ = none

abbrev pub json_of : Table → Json
json_of t = record {
  Value = Sample;
  null = word [];
  from_slice = λ _. some object;
  get = get_from t;
  as_str = str_of;
  as_u64 = int_of;
  as_f64 = real_of;
  as_array = words_of;
  is_object = λ _. true;
}

abbrev pub IsShortSample : Sample → Type 0
IsShortSample (word s) = IsU32 (length s)
IsShortSample (integer _) = Unit
IsShortSample (real _) = Unit
IsShortSample (words _) = Unit
IsShortSample object = Unit

pub length_of : (a s : Bytes) → IsU32 (length a) → some a ≡ some s → IsU32 (length s)
length_of a s h e = same a s h (injective e)
  where
    injective : {a b : Bytes} → some a ≡ some b → a ≡ b
    injective e = cc

    same : (t s : Bytes) → IsU32 (length t) → t ≡ s → IsU32 (length s)
    same t s h e = rw (← e) h

str_short : (v : Sample) (s : Bytes) → IsShortSample v → str_of v ≡ some s → IsU32 (length s)
str_short (word t) s h e = length_of t s h e
str_short (integer _) s h e = cc
str_short (real _) s h e = cc
str_short (words _) s h e = cc
str_short object s h e = cc

json_of-IsShort : (t : Table) → All (λ e. IsShortSample e.1) t → IsShort (json_of t) object
json_of-IsShort [] h k s e = cc
json_of-IsShort ((n, v) ∷ t) h k s e = elim (Bool-cases (equal n k)) [
  | inl same ↦ str_short v s h.0 (rw same at e)
  | inr other ↦ json_of-IsShort t h.1 k s (rw other at e)
]

abbrev pub table : Table
table =
    (codes "command", word (codes "PROPEXIST"))
    ∷ (codes "body", object)
    ∷ (codes "segment", word (codes "eu"))
    ∷ (codes "area", word (codes "north"))
    ∷ (codes "property_id", word (codes "p1"))
    ∷ (codes "property_type", word (codes "hotel"))
    ∷ (codes "category", word (codes "city"))
    ∷ (codes "stars", integer 4)
    ∷ (codes "latitude", real 0x4049_0000_0000_0000)
    ∷ (codes "longitude", real 0xC049_0000_0000_0000)
    ∷ (codes "amenities", words (codes "wifi" ∷ codes "pool" ∷ []))
    ∷ (codes "room_type", word (codes "double"))
    ∷ (codes "date", word (codes "2026-01-31"))
    ∷ (codes "amount", integer 7)
    ∷ (codes "final_price", integer 4294967301)
    ∷ (codes "rate_features", words (codes "breakfast" ∷ []))
    ∷ []

abbrev pub json : Json
json = json_of table

pub table-IsShort : IsShort json object
table-IsShort = json_of-IsShort table (omega arith)

-- The texts of the array are short.
abbrev IsShortList : Sample → Type 0
IsShortList (words ws) = IsShortOption (comma_words (some ws))
IsShortList _ = Unit

texts_of-words : (t : Table) (ws : List Bytes) → texts_of (json_of t) (map word ws) ≡ ws
unfolding texts_of
texts_of-words t [] = refl
texts_of-words t (w ∷ ws) = ap (◌∷◌ w) (texts_of-words t ws)

find-All :
    (P : Sample → Type 0) (t : Table) (key : Bytes) (v : Sample)
    → All (λ e. P e.1) t
    → find t key ≡ some v
    → P v
find-All P [] key v h e = cc
find-All P ((n, w) ∷ t) key v h e = elim (Bool-cases (equal n key)) [
  | inl same ↦ moved w v h.0 (rw same at e)
  | inr other ↦ find-All P t key v h.1 (rw other at e)
]
  where
    moved : (w v : Sample) → P w → some w ≡ some v → P v
    moved w v p e = let same : w ≡ v = cc in rw (← same) p

json_of-IsShortWords : (t : Table) → All (λ e. IsShortList e.1) t → IsShortWords (json_of t) object
json_of-IsShortWords t h key = elim (Option-cases (find t key)) [
  | inl e ↦ rw e (tt)
  | inr (v, e) ↦ rw e (short v (find-All IsShortList t key v h e))
]
  where
    short :
        (v : Sample)
        → IsShortList v
        → IsShortOption (comma_words (and_then (words_of v) (λ vs. some (texts_of (json_of t) vs))))
    short (word s) h = tt
    short (integer n) h = tt
    short (real x) h = tt
    short (words ws) h = rw (texts_of-words t ws) h
    short object h = tt

pub table-IsShortWords : IsShortWords json object
table-IsShortWords = json_of-IsShortWords table (omega arith)
