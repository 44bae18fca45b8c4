-- ===== src/Helper/PropertyId/Agree.antt =====
-- The writer of property ids agrees with the function that makes a string of them.
use rzgate.Prelude.{
  ℕ, ◌≡◌, refl, sym, ap, true, [], ◌∷◌, ◌++◌, length, append_assoc, length-take, length-append,
  replicate, arith, leb, ◌==◌, if◌then◌else◌, Bool-cases, inl, inr,
}
use rzgate.Bytes.{Bytes, codes}
use rzgate.Render.{quoted}
use rzgate.Utf8.{is_utf8}
use rzgate.Utf8.Laws.{from_utf8_lossy-is_utf8}
use rzgate.Helper.PropertyId.{
  until_nul, has_uuid_version, uuid_bytes, bytes_to_property_id, hex2, write_uuid,
  write_quoted_property_id,
}

abbrev pub hex : Bytes → Bytes
hex [] = []
hex (b ∷ bs) = hex2 b ++ hex bs

-- The documented text of a UUID: its bytes in lower case hexadecimal, in groups of 4, 2, 2, 2 and 6
-- bytes, with hyphens between them.
abbrev pub IsHyphenated : (Bytes → Bytes) → Type 0
IsHyphenated uuid_to_string =
    (a b c d e f g h i j k l m n o p : ℕ)
    → uuid_to_string (a ∷ b ∷ c ∷ d ∷ e ∷ f ∷ g ∷ h ∷ i ∷ j ∷ k ∷ l ∷ m ∷ n ∷ o ∷ p ∷ [])
      ≡ hex (a ∷ b ∷ c ∷ d ∷ [])
        ++ codes "-"
        ++ hex (e ∷ f ∷ [])
        ++ codes "-"
        ++ hex (g ∷ h ∷ [])
        ++ codes "-"
        ++ hex (i ∷ j ∷ [])
        ++ codes "-"
        ++ hex (k ∷ l ∷ m ∷ n ∷ o ∷ p ∷ [])

-- The text of a short id: its two parts.
abbrev pub short_text : Bytes → Bytes
short_text (a ∷ b ∷ c ∷ d ∷ e ∷ f ∷ g ∷ rest) =
    until_nul (a ∷ b ∷ c ∷ d ∷ e ∷ f ∷ []) ++ until_nul rest
short_text _ = []

-- The marker of a short id in byte 6.
abbrev pub IsShort : Bytes → Type 0
IsShort (a ∷ b ∷ c ∷ d ∷ e ∷ f ∷ g ∷ rest) = g ≡ 0xF0
IsShort _ = ⊥

until_nul_rest :
    (rest : Bytes) → (if leb 1 (length rest) then until_nul rest else []) ≡ until_nul rest
unfolding until_nul
until_nul_rest [] = refl
until_nul_rest (b ∷ bs) = ground arith

length-uuid_bytes : (bytes : Bytes) → length (uuid_bytes bytes) ≡ 16
unfolding uuid_bytes
length-uuid_bytes bytes =
    length-take 16 (bytes ++ replicate 16 0) (omega (arith, length-append bytes (replicate 16 0)))

module _ (uuid_to_string : Bytes → Bytes) (documented : IsHyphenated uuid_to_string) where
  write_uuid_lem : (u : Bytes) → length u ≡ 16 → write_uuid u ≡ uuid_to_string u
  unfolding write_uuid hex2
  write_uuid_lem (a ∷ b ∷ c ∷ d ∷ e ∷ f ∷ g ∷ h ∷ i ∷ j ∷ k ∷ l ∷ m ∷ n ∷ o ∷ p ∷ []) _ =
      sym (documented a b c d e f g h i j k l m n o p)
  write_uuid_lem _ h = absurd (omega arith)

  pub write_quoted_property_id-eq :
      (json bytes : Bytes)
      → (IsShort bytes → is_utf8 (short_text bytes) ≡ true)
      → write_quoted_property_id json bytes
        ≡ json ++ quoted (bytes_to_property_id uuid_to_string bytes)
  unfolding write_quoted_property_id bytes_to_property_id
  write_quoted_property_id-eq json (a ∷ b ∷ c ∷ d ∷ e ∷ f ∷ g ∷ rest) text =
      elim (Bool-cases (g == 0xF0)) [
        | inl short ↦
            rw (short, until_nul_rest rest, from_utf8_lossy-is_utf8 _ (text (ground arith)))
              (ap (λ (t : Bytes). json ++ (b'"' ∷ t))
                (sym (
                  append_assoc (until_nul (a ∷ b ∷ c ∷ d ∷ e ∷ f ∷ [])) (until_nul rest)
                    (b'"' ∷ []))))
        | inr long ↦ rw long (elim (Bool-cases (has_uuid_version g)) [
          | inl uuid ↦ rw (
            uuid,
            write_uuid_lem (uuid_bytes (a ∷ b ∷ c ∷ d ∷ e ∷ f ∷ g ∷ rest)) (length-uuid_bytes _),
          )
          | inr neither ↦ rw neither
        ])
      ]
  write_quoted_property_id-eq json _ text = refl
