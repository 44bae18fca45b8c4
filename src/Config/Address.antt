-- ===== src/Config/Address.antt =====
-- What is left of the address of the backend.
use rzgate.Prelude.{
  ℕ, ◌≡◌, ◌≢◌, refl, false, ◌&&◌, [], ◌∷◌, length, arith, ◌==◌, Bool-cases, inl, inr,
}
use rzgate.Bytes.{Bytes, codes}
use rzgate.Config.{trim_start_matches, trim_end_slashes, Config, parse}

-- The last byte of a text is not a slash.
abbrev pub EndsBare : Bytes → Type 0
EndsBare [] = Unit
EndsBare (c ∷ []) = c ≢ b'/'
EndsBare (c ∷ d ∷ ds) = EndsBare (d ∷ ds)

EndsBare-cons :
    (c : ℕ) (rest : Bytes)
    → (c == b'/' && length rest == 0) ≡ false
    → EndsBare rest
    → EndsBare (c ∷ rest)
EndsBare-cons c [] h e = ground arith
EndsBare-cons c (d ∷ ds) h e = e

trim_end_slashes-EndsBare : (s : Bytes) → EndsBare (trim_end_slashes s)
unfolding trim_end_slashes
trim_end_slashes-EndsBare [] = tt
trim_end_slashes-EndsBare (c ∷ cs) =
    elim (Bool-cases (c == b'/' && length (trim_end_slashes cs) == 0)) [
      | inl slash ↦ rw slash tt
      | inr kept ↦
          rw kept (EndsBare-cons c (trim_end_slashes cs) kept (trim_end_slashes-EndsBare cs))
    ]

-- The backend's address that is parsed never ends in a slash; everything else is as it was given.
pub parse-EndsBare :
    (config : Config)
    → EndsBare (parse config).roomzin_addr
      × (record (parse config) { roomzin_addr = config.roomzin_addr } ≡ config)
unfolding parse
parse-EndsBare config = (
  trim_end_slashes-EndsBare (
      trim_start_matches (codes "https://")
        (trim_start_matches (codes "http://") config.roomzin_addr)),
  refl,
)
