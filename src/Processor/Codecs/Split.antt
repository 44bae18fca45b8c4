-- ===== src/Processor/Codecs/Split.antt =====
-- The standard library's `split(',')` and `trim` on UTF-8 bytes. A byte of a longer character is neither
-- a comma nor a space.
use rzgate.Prelude.{
  ℕ, zero, suc, ◌≡◌, ◌≢◌, refl, ap, ◌==◌, ◌&&◌, ◌||◌, List, [], ◌∷◌, ◌++◌, All, length, leb, drop,
  ==_false, if◌then◌else◌,
}
use rzgate.Bytes.{Bytes}
use rzgate.Processor.SetProp.{join}

-- How many bytes the white space at the front has; 0 if there is none.
unfoldable pub space_len : Bytes → ℕ
space_len [] = 0
space_len (b ∷ []) = if (leb 9 b && leb b 13) || b == 32 then 1 else 0
space_len (b ∷ c ∷ []) =
    if (leb 9 b && leb b 13) || b == 32
    then 1
    else if b == 0xC2 && (c == 0x85 || c == 0xA0)
    then 2
    else 0
space_len (b ∷ c ∷ d ∷ _) =
    if (leb 9 b && leb b 13) || b == 32
    then 1
    else if b == 0xC2 && (c == 0x85 || c == 0xA0)
    then 2
    else if (b == 0xE1 && c == 0x9A && d == 0x80)
        || (b == 0xE2
            && c == 0x80
            && ((leb 0x80 d && leb d 0x8A) || d == 0xA8 || d == 0xA9 || d == 0xAF))
        || (b == 0xE2 && c == 0x81 && d == 0x9F)
        || (b == 0xE3 && c == 0x80 && d == 0x80)
    then 3
    else 0

-- Each round takes a byte at least, so that the length is enough fuel.
unfoldable pub trim_start_rounds : ℕ → Bytes → Bytes
trim_start_rounds zero s = s
trim_start_rounds (suc fuel) s =
    let rest = trim_start_rounds fuel (drop (space_len s) s) in if space_len s == 0 then s else rest

abbrev pub trim_start : Bytes → Bytes
trim_start s = trim_start_rounds (length s) s

-- The rest is cut where it is all white space.
unfoldable pub trim_end : Bytes → Bytes
trim_end [] = []
trim_end (b ∷ bs) =
    let rest = trim_end bs in if length (trim_start (b ∷ bs)) == 0 then [] else b ∷ rest

unfoldable pub trim : Bytes → Bytes
unfolding trim_start_rounds trim_end space_len
trim s = trim_end (trim_start s)

-- The part up to the first comma, and the parts behind it.
abbrev push_front : ℕ → Bytes × List Bytes → Bytes × List Bytes
push_front b (part, parts) = (b ∷ part, parts)

abbrev next_part : Bytes × List Bytes → Bytes × List Bytes
next_part (part, parts) = ([], part ∷ parts)

unfoldable pub split_parts : Bytes → Bytes × List Bytes
split_parts [] = ([], [])
split_parts (b ∷ bs) =
    let rest = split_parts bs in if b == b',' then next_part rest else push_front b rest

abbrev pub split_comma : Bytes → List Bytes
split_comma s = let (part, parts) = split_parts s in part ∷ parts

-- `.map(|s| s.trim().to_string()).filter(|s| !s.is_empty())`
unfoldable pub trimmed_names : List Bytes → List Bytes
unfolding trim
trimmed_names [] = []
trimmed_names (s ∷ ss) =
    let rest = trimmed_names ss in if length (trim s) == 0 then rest else trim s ∷ rest

-- A name that the list can carry: not empty, without a comma, and without white space at its ends.
pub record IsName (s : Bytes) : Type 0 where
  pub filled : s ≢ []
  pub no_comma : All (λ b. b ≢ b',') s
  pub bare : trim s ≡ s

split_parts-append :
    (s t : Bytes) → All (λ b. b ≢ b',') s → split_parts (s ++ (b',' ∷ t)) ≡ (s, split_comma t)
unfolding split_parts
split_parts-append [] t h = refl
split_parts-append (b ∷ s) t h = rw (==_false b b',' h.0, split_parts-append s t h.1)

split_parts_whole : (s : Bytes) → All (λ b. b ≢ b',') s → split_parts s ≡ (s, [])
unfolding split_parts
split_parts_whole [] h = refl
split_parts_whole (b ∷ s) h = rw (==_false b b',' h.0, split_parts_whole s h.1)

pub split_comma-join :
    (s : Bytes) (ss : List Bytes) → All IsName (s ∷ ss) → split_comma (join (s ∷ ss)) ≡ s ∷ ss
split_comma-join s [] h = rw (split_parts_whole s h.0.no_comma)
split_comma-join s (t ∷ ss) h =
    rw (split_parts-append s (join (t ∷ ss)) h.0.no_comma) (ap (◌∷◌ s) (split_comma-join t ss h.1))

pub trimmed_names_lem : (ss : List Bytes) → All IsName ss → trimmed_names ss ≡ ss
unfolding trimmed_names
trimmed_names_lem [] h = refl
trimmed_names_lem (s ∷ ss) h =
    rw (h.0.bare, ==_false (length s) 0 (λ e. h.0.filled (empty s e)), trimmed_names_lem ss h.1)
  where
    empty : (s : Bytes) → length s ≡ 0 → s ≡ []
    empty [] e = refl
    empty (b ∷ s) e = cc
