-- ===== src/Processor/DateList/Order.antt =====
-- The standard library's `cmp` of byte strings, which is lexicographic, and a sort by it. Byte strings
-- that compare xs equal are the same, so that every sort has the same result.
use rzgate.Prelude.{
  ℕ, suc, ◌≡◌, refl, ◌∙◌, Bool, true, false, List, [], ◌∷◌, arith, ltb, ◌==◌, equal, if◌then◌else◌,
  Bool-cases, inl, inr,
}
use rzgate.Bytes.{Bytes}

-- `a.cmp(b) != Greater`
unfoldable pub bytes_le : Bytes → Bytes → Bool
bytes_le [] ys = true
bytes_le (a ∷ xs) [] = false
bytes_le (a ∷ xs) (b ∷ ys) =
    let rest = bytes_le xs ys in if ltb a b then true else (if a == b then rest else false)

unfoldable pub insert : Bytes → List Bytes → List Bytes
insert x [] = x ∷ []
insert x (y ∷ ys) = let rest = insert x ys in if bytes_le x y then x ∷ y ∷ ys else y ∷ rest

unfoldable pub sort : List Bytes → List Bytes
unfolding insert
sort [] = []
sort (x ∷ xs) = insert x (sort xs)

bytes_le_total : (xs ys : Bytes) → bytes_le xs ys ≡ false → bytes_le ys xs ≡ true
unfolding bytes_le
bytes_le_total [] ys h = cc
bytes_le_total (a ∷ xs) [] h = refl
bytes_le_total (a ∷ xs) (b ∷ ys) h = ground (arith, bytes_le_total xs ys)

-- Each element is not above the next.
abbrev pub IsSorted : List Bytes → Type 0
IsSorted [] = Unit
IsSorted (x ∷ []) = Unit
IsSorted (x ∷ y ∷ ys) = (bytes_le x y ≡ true) × IsSorted (y ∷ ys)

behind :
    (y x z : Bytes) (zs : List Bytes)
    → bytes_le y z ≡ true
    → bytes_le y x ≡ true
    → IsSorted (insert x (z ∷ zs))
    → IsSorted (y ∷ insert x (z ∷ zs))
unfolding insert
behind y x z zs yz yx h = elim (Bool-cases (bytes_le x z)) [
  | inl low ↦ rw low (yx, rw low at h)
  | inr high ↦ rw high (yz, rw high at h)
]

insert-IsSorted : (x : Bytes) (ys : List Bytes) → IsSorted ys → IsSorted (insert x ys)
unfolding insert
insert-IsSorted x [] h = tt
insert-IsSorted x (y ∷ []) h = elim (Bool-cases (bytes_le x y)) [
  | inl low ↦ rw low (low, tt)
  | inr high ↦ rw high (bytes_le_total x y high, tt)
]
insert-IsSorted x (y ∷ z ∷ zs) h = elim (Bool-cases (bytes_le x y)) [
  | inl low ↦ rw low (low, h)
  | inr high ↦
      rw high (behind y x z zs h.0 (bytes_le_total x y high) (insert-IsSorted x (z ∷ zs) h.1))
]

pub sort-IsSorted : (xs : List Bytes) → IsSorted (sort xs)
unfolding sort
sort-IsSorted [] = tt
sort-IsSorted (x ∷ xs) = insert-IsSorted x (sort xs) (sort-IsSorted xs)

-- How often a byte string stands in a list.
unfoldable pub count : Bytes → List Bytes → ℕ
count x [] = 0
count x (y ∷ ys) = let rest = count x ys in if equal x y then suc rest else rest

count-insert : (x y : Bytes) (ys : List Bytes) → count x (insert y ys) ≡ count x (y ∷ ys)
unfolding count insert
count-insert x y [] = refl
count-insert x y (z ∷ zs) = ground (arith, count-insert x y zs)

pub count-sort : (x : Bytes) (xs : List Bytes) → count x (sort xs) ≡ count x xs
unfolding count sort
count-sort x [] = refl
count-sort x (y ∷ ys) = count-insert x y (sort ys) ∙ unfold count in ground (arith, count-sort x ys)
