-- ===== src/Flow/Rules.antt =====
-- When a flow returns: it neither panics nor runs out of fuel. One rule for each way to build a flow.
use rzgate.Prelude.{
  ℕ, zero, suc, ◌+◌, ◌≤◌, ◌<◌, ◌≡◌, refl, Bool, true, false, some, List, [], ◌∷◌, arith, length,
  take, drop, get_elem?, length-take, length-drop, ◌-◌, if◌then◌else◌,
}
use rzgate.Bytes.{Bytes, from_u16_le, from_u32_le}
use rzgate.Flow.{Flow, next, invalid, panic, stuck, ◌>>=◌, index, slice, read_u16, read_u32}

-- The flow ends, by a value or by the early exit.
pub data Returns {ℓ} {A : Type ℓ} : Flow A → Type ℓ where
  value : (a : A) → Returns (next a)
  early : Returns invalid

pub get_elem?_lt {ℓ} :
    {A : Type ℓ} (xs : List A) (i : ℕ) → i < length xs → (a : A) × (get_elem? xs i ≡ some a)
get_elem?_lt [] i h = elim h [ ]
get_elem?_lt (x ∷ xs) zero h = (x, refl)
get_elem?_lt (x ∷ xs) (suc i) h = get_elem?_lt xs i (omega arith)

pub index_lt : (bytes : Bytes) (i : ℕ) → i < length bytes → (b : ℕ) × (index bytes i ≡ next b)
unfolding index
index_lt bytes i h = let (b, e) = get_elem?_lt bytes i h in (b, rw e refl)

pub read_u16_lt :
    (bytes : Bytes) (i : ℕ) → i + 1 < length bytes → (n : ℕ) × (read_u16 bytes i ≡ next n)
unfolding read_u16
read_u16_lt bytes i h =
    let (a, p) = index_lt bytes i (omega arith) in
    let (b, q) = index_lt bytes (i + 1) h in (from_u16_le a b, rw (p, q) refl)

pub read_u32_lt :
    (bytes : Bytes) (i : ℕ) → i + 3 < length bytes → (n : ℕ) × (read_u32 bytes i ≡ next n)
unfolding read_u32
read_u32_lt bytes i h =
    let (a, p) = index_lt bytes i (omega arith) in
    let (b, q) = index_lt bytes (i + 1) (omega arith) in
    let (c, r) = index_lt bytes (i + 2) (omega arith) in
    let (d, s) = index_lt bytes (i + 3) h in (from_u32_le a b c d, rw (p, q, r, s) refl)

pub slice-take :
    (bytes : Bytes) (a b : ℕ)
    → a ≤ b
    → b ≤ length bytes
    → slice bytes a b ≡ next (take (b - a) (drop a bytes))
unfolding slice
slice-take bytes a b h k = ground arith

pub slice_le :
    (bytes : Bytes) (a b : ℕ)
    → a ≤ b
    → b ≤ length bytes
    → (s : Bytes) × (slice bytes a b ≡ next s) × (length s + a ≡ b)
slice_le bytes a b h k = (
  take (b - a) (drop a bytes),
  slice-take bytes a b h k,
  omega (arith, length-take (b - a) (drop a bytes) (omega (arith, length-drop a bytes))),
)

pub Returns-bind {ℓ κ} :
    {A : Type ℓ} {B : Type κ} {m : Flow A} (f : A → Flow B)
    → Returns m
    → ((a : A) → Returns (f a))
    → Returns (m >>= f)
Returns-bind f (value a) k = k a
Returns-bind f early k = early

-- A read that is in bounds gives a value, and the flow goes on with it.
pub Returns-from {ℓ κ} :
    {A : Type ℓ} {B : Type κ} (m : Flow A) (f : A → Flow B)
    → (a : A) × (m ≡ next a)
    → ((a : A) → m ≡ next a → Returns (f a))
    → Returns (m >>= f)
Returns-from m f (a, e) k = rw e (k a e)

pub Returns-if {ℓ} :
    {A : Type ℓ} (b : Bool) (m n : Flow A)
    → (b ≡ true → Returns m)
    → (b ≡ false → Returns n)
    → Returns (if b then m else n)
Returns-if true m n h k = h refl
Returns-if false m n h k = k refl

-- The flow gives a value with the property, or takes the early exit.
pub data Gives {ℓ κ} {A : Type ℓ} (P : A → Type κ) : Flow A → Type (ℓ ⊔ κ) where
  given : (a : A) → P a → Gives P (next a)
  left_early : Gives P invalid

pub Gives-bind :
    {A B : Type 0} (P : A → Type 0) (Q : B → Type 0) (m : Flow A) (f : A → Flow B)
    → Gives P m
    → ((a : A) → P a → Gives Q (f a))
    → Gives Q (m >>= f)
Gives-bind P Q m f (given a p) k = k a p
Gives-bind P Q m f left_early k = left_early

pub Gives-from :
    {A B : Type 0} (Q : B → Type 0) (m : Flow A) (f : A → Flow B)
    → (a : A) × (m ≡ next a)
    → ((a : A) → m ≡ next a → Gives Q (f a))
    → Gives Q (m >>= f)
Gives-from Q m f (a, e) k = rw e (k a e)

pub Returns-Gives :
    {A B : Type 0} (P : A → Type 0) (m : Flow A) (f : A → Flow B)
    → Gives P m
    → ((a : A) → P a → Returns (f a))
    → Returns (m >>= f)
Returns-Gives P m f (given a p) k = k a p
Returns-Gives P m f left_early k = early

pub Gives-Returns :
    {A B : Type 0} (Q : B → Type 0) (m : Flow A) (f : A → Flow B)
    → Returns m
    → ((a : A) → Gives Q (f a))
    → Gives Q (m >>= f)
Gives-Returns Q m f (value a) k = k a
Gives-Returns Q m f early k = left_early

pub Gives-if :
    {A : Type 0} (P : A → Type 0) (b : Bool) (m n : Flow A)
    → (b ≡ true → Gives P m)
    → (b ≡ false → Gives P n)
    → Gives P (if b then m else n)
Gives-if P true m n h k = h refl
Gives-if P false m n h k = k refl

-- If the flow gives a value, the value has the property.
pub data Only {ℓ κ} {A : Type ℓ} (P : A → Type κ) : Flow A → Type (ℓ ⊔ κ) where
  has : (a : A) → P a → Only P (next a)
  early_only : Only P invalid
  panic_only : Only P panic
  stuck_only : Only P stuck

pub Only-bind :
    {A B : Type 0} (P : B → Type 0) (m : Flow A) (f : A → Flow B)
    → ((a : A) → Only P (f a))
    → Only P (m >>= f)
Only-bind P (next a) f h = h a
Only-bind P invalid f h = early_only
Only-bind P panic f h = panic_only
Only-bind P stuck f h = stuck_only

pub Only-if :
    {A : Type 0} (P : A → Type 0) (b : Bool) (m n : Flow A)
    → Only P m
    → Only P n
    → Only P (if b then m else n)
Only-if P true m n h k = h
Only-if P false m n h k = k
