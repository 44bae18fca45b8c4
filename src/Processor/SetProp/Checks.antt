-- ===== src/Processor/SetProp/Checks.antt =====
-- What the checks of SETPROP let through.
use rzgate.Prelude.{ℕ, ◌≡◌, ◌≤◌, refl, arith, true, Option, some, none}
use rzgate.Bytes.{Bytes}
use rzgate.F64.{in_range}
use rzgate.RzError.{RzError, Result, ok, err, ◌>>=◌}
use rzgate.Processor.Request.{present}
use rzgate.Processor.SetProp.{stars_of, degrees_of}

pub bind_ok :
    {A B C : Type 0} (r : Result A) (f : A → Result B) (b : B)
    → (r >>= f) ≡ ok b
    → ((a : A) → r ≡ ok a → f a ≡ ok b → C)
    → C
bind_ok (ok a) f b h k = k a refl h
bind_ok (err e) f b h k = elim (not_ok h) [ ]
  where
    not_ok : {A : Type 0} {b : A} {x : RzError} → err x ≡ ok b → ⊥
    not_ok h = cc

pub present_ok : (o : Option Bytes) (name s : Bytes) → present o name ≡ ok s → o ≡ some s
unfolding present
present_ok none name s h = cc
present_ok (some t) name s h = cc

pub stars_ok : (o : Option ℕ) (s : ℕ) → stars_of o ≡ ok s → (o ≡ some s) × (1 ≤ s) × (s ≤ 5)
unfolding stars_of
stars_ok none s h = cc
stars_ok (some t) s h = ground arith

pub degrees_ok :
    (lo hi : ℕ) (message : Bytes) (o : Option ℕ) (x : ℕ)
    → degrees_of lo hi message o ≡ ok x
    → (o ≡ some x) × (in_range lo hi x ≡ true)
unfolding degrees_of
degrees_ok lo hi message none x h = cc
degrees_ok lo hi message (some y) x h = ground arith
