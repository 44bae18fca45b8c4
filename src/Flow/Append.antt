-- ===== src/Flow/Append.antt =====
-- Reading at an offset behind a prefix is reading what follows it.
use native.Mathlib.Nat.{zero-add, suc-add, add-sub_cancel_left}
use rzgate.Prelude.{
  ℕ, ◌+◌, ◌-◌, ◌≤◌, ◌<◌, ◌≡◌, ap, ◌∙◌, List, [], ◌∷◌, ◌++◌, arith, length, length-append, drop,
  take-append, drop-append, get_elem?, length-drop, get_elem?-prefix, take-prefix, drop-prefix,
}
use rzgate.Bytes.{Bytes, IsU16, IsU32, u16_le, u32_le}
use rzgate.Bytes.Words.{from_u16_le-u16_le, from_u32_le-u32_le}
use rzgate.Flow.Rules.{slice-take}
use rzgate.Flow.{next, index, slice, read_u16, read_u32}

pub get_elem?-append {ℓ} :
    {A : Type ℓ} (pre xs : List A) (k : ℕ) → get_elem? (pre ++ xs) (length pre + k) ≡ get_elem? xs k
get_elem?-append [] xs k = rw zero-add
get_elem?-append (x ∷ pre) xs k = rw (suc-add (length pre) k) (get_elem?-append pre xs k)

-- The offset is given with an equation, so that it may stand in any form.
pub index-append :
    (pre xs : Bytes) (i k : ℕ) → i ≡ length pre + k → index (pre ++ xs) i ≡ index xs k
unfolding index
index-append pre xs i k at = rw (at, get_elem?-append pre xs k)

pub read_u16-append :
    (pre xs : Bytes) (i k : ℕ) → i ≡ length pre + k → read_u16 (pre ++ xs) i ≡ read_u16 xs k
unfolding read_u16
read_u16-append pre xs i k at =
    rw (index-append pre xs i k at, index-append pre xs (i + 1) (k + 1) (omega arith))

pub read_u32-append :
    (pre xs : Bytes) (i k : ℕ) → i ≡ length pre + k → read_u32 (pre ++ xs) i ≡ read_u32 xs k
unfolding read_u32
read_u32-append pre xs i k at = rw (
  index-append pre xs i k at,
  index-append pre xs (i + 1) (k + 1) (omega arith),
  index-append pre xs (i + 2) (k + 2) (omega arith),
  index-append pre xs (i + 3) (k + 3) (omega arith),
)

pub read_u16-u16_le : (n : ℕ) (rest : Bytes) → IsU16 n → read_u16 (u16_le n ++ rest) 0 ≡ next n
unfolding read_u16 index
read_u16-u16_le n rest h = ap next (from_u16_le-u16_le n h)

pub read_u32-u32_le : (n : ℕ) (rest : Bytes) → IsU32 n → read_u32 (u32_le n ++ rest) 0 ≡ next n
unfolding read_u32 index
read_u32-u32_le n rest h = ap next (from_u32_le-u32_le n h)

pub slice-append :
    (pre mid post : Bytes) (a b : ℕ)
    → a ≡ length pre
    → b ≡ length pre + length mid
    → slice (pre ++ (mid ++ post)) a b ≡ next mid
slice-append pre mid post a b p q =
    slice-take (pre ++ (mid ++ post)) a b (omega arith)
      (omega (arith, length-append pre (mid ++ post), length-append mid post))
    ∙ rw (p, q, drop-append, add-sub_cancel_left, take-append)

-- Reading inside a prefix does not look past it.
pub index-prefix : (xs ys : Bytes) (i : ℕ) → i < length xs → index xs i ≡ index (xs ++ ys) i
unfolding index
index-prefix xs ys i h = rw (get_elem?-prefix xs ys i h)

pub read_u16-prefix :
    (xs ys : Bytes) (i : ℕ) → i + 1 < length xs → read_u16 xs i ≡ read_u16 (xs ++ ys) i
unfolding read_u16
read_u16-prefix xs ys i h = rw (index-prefix xs ys i (omega arith), index-prefix xs ys (i + 1) h)

pub read_u32-prefix :
    (xs ys : Bytes) (i : ℕ) → i + 3 < length xs → read_u32 xs i ≡ read_u32 (xs ++ ys) i
unfolding read_u32
read_u32-prefix xs ys i h = rw (
  index-prefix xs ys i (omega arith),
  index-prefix xs ys (i + 1) (omega arith),
  index-prefix xs ys (i + 2) (omega arith),
  index-prefix xs ys (i + 3) h,
)

pub slice-prefix :
    (xs ys : Bytes) (a b : ℕ) → a ≤ b → b ≤ length xs → slice xs a b ≡ slice (xs ++ ys) a b
slice-prefix xs ys a b h k = rw (
  slice-take xs a b h k,
  slice-take (xs ++ ys) a b h (omega (arith, length-append xs ys)),
  drop-prefix a xs ys (omega arith),
  take-prefix (b - a) (drop a xs) ys (omega (arith, length-drop a xs)),
)
