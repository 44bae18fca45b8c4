-- ===== src/Processor/Request/Required.antt =====
-- The required texts of a command, described on their own: the keys in the order of the checks, and
-- the texts that they hold as the fields 1, 2, .. of the request.
use rzgate.Prelude.{
  ℕ, ◌+◌, ◌≡◌, ◌≢◌, refl, ◌⊎◌, inl, inr, ◌↔◌, List, [], ◌∷◌, ◌++◌, Option, none, some, arith,
  length, ==_false,
}
use rzgate.Bytes.{Bytes, codes, IsU16, IsU32}
use rzgate.RzError.{RzError, Result, ok, err, validation, ◌>>=◌}
use rzgate.Protocol.{Field}
use rzgate.Protocol.Reply.Encoding.{Fits}
use rzgate.Processor.Json.{Json, text}
use rzgate.Processor.Request.{non_empty}
use rzgate.Processor.Request.Layout.{text_field}

-- The texts as fields with the numbers from `i` on.
abbrev pub numbered : ℕ → List Bytes → List Field
numbered i [] = []
numbered i (s ∷ ss) = text_field i s ∷ numbered (i + 1) ss

pub Result-cases {ℓ} :
    {A : Type ℓ} (r : Result A) → ((a : A) × (r ≡ ok a)) ⊎ ((e : _) × (r ≡ err e))
Result-cases (ok a) = inl (a, refl)
Result-cases (err e) = inr (e, refl)

ok_unique : (r : Result (List Bytes)) (a b : List Bytes) → r ≡ ok a → r ≡ ok b → a ≡ b
ok_unique r a b h h2 = cc

not_both : (r : Result (List Bytes)) (a : List Bytes) (x : RzError) → r ≡ ok a → r ≡ err x → ⊥
not_both r a x h h2 = cc

-- The text, if there is one that is not empty; else an error that names the key.
abbrev pub needed : Option Bytes → Bytes → Result Bytes
needed none key = err (validation (key ++ codes " is required"))
needed (some []) key = err (validation (key ++ codes " is required"))
needed (some (c ∷ cs)) key = ok (c ∷ cs)

pub non_empty-needed : (o : Option Bytes) (key : Bytes) → non_empty o key ≡ needed o key
unfolding non_empty
non_empty-needed none key = refl
non_empty-needed (some []) key = refl
non_empty-needed (some (c ∷ cs)) key = rw (==_false (length (c ∷ cs)) 0 (λ e. omega arith)) refl

module _ (json : Json) where
  open json use {Value}

  -- All keys hold a text that is not empty, or the first that does not is named by the error.
  unfoldable pub required : Value → List Bytes → Result (List Bytes)
  required payload [] = ok []
  required payload (k ∷ ks) = do
    s ← needed (text json payload k) k
    ss ← required payload ks
    ok (s ∷ ss)

  -- `ss` are the texts of the keys, none of them empty.
  abbrev pub Holds : Value → List Bytes → List Bytes → Type 0
  Holds payload [] [] = Unit
  Holds payload [] (s ∷ ss) = ⊥
  Holds payload (k ∷ ks) [] = ⊥
  Holds payload (k ∷ ks) (s ∷ ss) = (text json payload k ≡ some s) × (s ≢ []) × Holds payload ks ss

  -- The texts of a payload have lengths of 32 bits.
  abbrev pub IsShort : Value → Type 0
  IsShort payload = (k s : Bytes) → text json payload k ≡ some s → IsU32 (length s)

pub needed-some : (name s : Bytes) → s ≢ [] → needed (some s) name ≡ ok s
needed-some name [] h = elim (h refl) [ ]
needed-some name (c ∷ cs) h = refl

needed_ok : (o : Option Bytes) (name s : Bytes) → needed o name ≡ ok s → (o ≡ some s) × (s ≢ [])
needed_ok none name s h = cc
needed_ok (some []) name s h = cc
needed_ok (some (c ∷ cs)) name s h = (cc, λ e. cc)

module _ (json : Json) where
  open json use {Value}

  -- What `required` accepts is what `Holds` says.
  pub required-Holds :
      (payload : Value) (keys ss : List Bytes)
      → (required json payload keys ≡ ok ss) ↔ Holds json payload keys ss
  unfolding required
  required-Holds payload keys ss = (accepted keys ss, complete keys ss)
    where
      accepted :
          (keys ss : List Bytes) → required json payload keys ≡ ok ss → Holds json payload keys ss
      accepted [] [] h = tt
      accepted [] (s ∷ ss) h = cc
      accepted (k ∷ ks) ss h = elim (Result-cases (needed (text json payload k) k)) [
        | inl (s, e) ↦ elim (Result-cases (required json payload ks)) [
          | inl (ts, e2) ↦
              rw (ok_unique (required json payload (k ∷ ks)) ss (s ∷ ts) h (rw (e, e2) refl)) (
                let (held, nonempty) = needed_ok (text json payload k) k s e in
                (held, nonempty, accepted ks ts e2))
          | inr (x, e2) ↦
              elim (not_both (required json payload (k ∷ ks)) ss x h (rw (e, e2) refl)) [ ]
        ]
        | inr (x, e) ↦ elim (not_both (required json payload (k ∷ ks)) ss x h (rw e refl)) [ ]
      ]

      complete :
          (keys ss : List Bytes) → Holds json payload keys ss → required json payload keys ≡ ok ss
      complete [] [] h = refl
      complete [] (s ∷ ss) h = elim h [ ]
      complete (k ∷ ks) [] h = elim h [ ]
      complete (k ∷ ks) (s ∷ ss) h = rw (h.0, needed-some k s h.1, complete ks ss h.2)

  -- A text that passes the check makes a field that fits.
  pub checked-Fits :
      (payload : Value) (k s : Bytes) (i : ℕ)
      → IsShort json payload
      → needed (text json payload k) k ≡ ok s
      → IsU16 i
      → Fits (text_field i s)
  checked-Fits payload k s i short e few = record {
    id_fits = few;
    len_fits = short k s (needed_ok (text json payload k) k s e).0;
  }
