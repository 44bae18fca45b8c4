-- ===== src/Handler/Pool/Reconnect.antt =====
-- `reconnect_closed` fills the pool, and then `next_connection` finds a connection.
use rzgate.Prelude.{
  ℕ, suc, ◌≡◌, ◌<◌, refl, ap, Bool, true, false, Option, none, some, [], ◌∷◌, All, length, arith,
  Bool-cases, inl, inr,
}
use rzgate.Flow.{next}
use rzgate.Metrics.{Metrics}
use rzgate.Handler.Pool.{Slots, usable, replace, reconnect_closed, next_connection}
use rzgate.Handler.Pool.Scan.{IsOpen, next_connection_lem}

pub length-reconnect_closed :
    (closed : ℕ → Bool) (connect : ℕ → Option ℕ) (i : ℕ) (slots : Slots) (m : Metrics)
    → length (reconnect_closed closed connect i slots m).0 ≡ length slots
unfolding reconnect_closed
length-reconnect_closed closed connect i [] m = refl
length-reconnect_closed closed connect i (slot ∷ slots) m =
    ap suc (length-reconnect_closed closed connect (suc i) slots _)

-- The backend takes every connection, and the new connections are open.
abbrev pub IsUp : (ℕ → Bool) → (ℕ → Option ℕ) → Type 0
IsUp closed connect = (i : ℕ) → usable closed (connect i) ≡ true

replaced-usable :
    (closed : ℕ → Bool) (slot made : Option ℕ) (m : Metrics)
    → usable closed made ≡ true
    → usable closed (replace (usable closed slot) slot made m).0 ≡ true
unfolding replace
replaced-usable closed slot none m up = cc
replaced-usable closed slot (some c) m up = elim (Bool-cases (usable closed slot)) [
  | inl open_ ↦ rw open_ open_
  | inr closed_ ↦ rw closed_ up
]

All-usable :
    (closed : ℕ → Bool) (connect : ℕ → Option ℕ) (i : ℕ) (slots : Slots) (m : Metrics)
    → IsUp closed connect
    → All (λ slot. usable closed slot ≡ true) (reconnect_closed closed connect i slots m).0
unfolding reconnect_closed
All-usable closed connect i [] m up = tt
All-usable closed connect i (slot ∷ slots) m up =
    (replaced-usable closed slot (connect i) m (up i), All-usable closed connect (suc i) slots _ up)

-- Of a pool that is not empty and all open, it cannot be that no slot is open.
contradiction :
    (closed : ℕ → Bool) (slots : Slots)
    → 0 < length slots
    → All (λ slot. usable closed slot ≡ true) slots
    → All (λ slot. usable closed slot ≡ false) slots
    → ⊥
contradiction closed [] h a b = omega arith
contradiction closed (slot ∷ slots) h a b = bool_cases (usable closed slot) a.0 b.0
  where
    bool_cases : (b : Bool) → b ≡ true → b ≡ false → ⊥
    bool_cases b p q = cc

-- When the backend takes every connection, `reconnect_closed` leaves as many slots as there were,
-- and then `next_connection`, from any index inside the pool, answers with a connection
-- that stands in a slot and is open: it never answers with none.
pub reconnect_closed-next_connection :
    (closed : ℕ → Bool) (connect : ℕ → Option ℕ) (slots : Slots) (m : Metrics) (idx : ℕ)
    → IsUp closed connect
    → idx < length slots
    → (c after : ℕ) × (next_connection closed (reconnect_closed closed connect 0 slots m).0 idx
        ≡ next (some c, after))
      × (after < length slots)
      × IsOpen closed (reconnect_closed closed connect 0 slots m).0 (some c)
reconnect_closed-next_connection closed connect slots m idx up inside =
    let same = length-reconnect_closed closed connect 0 slots m in
    let (found, after, e, lt, open_) =
      next_connection_lem closed (reconnect_closed closed connect 0 slots m).0 idx
        (omega (arith, same)) in
    answer found after e (omega (arith, same)) open_
  where
    answer :
        (found : Option ℕ) (after : ℕ)
        → next_connection closed (reconnect_closed closed connect 0 slots m).0 idx
          ≡ next (found, after)
        → after < length slots
        → IsOpen closed (reconnect_closed closed connect 0 slots m).0 found
        → (c after : ℕ) × (next_connection closed (reconnect_closed closed connect 0 slots m).0 idx
            ≡ next (some c, after))
          × (after < length slots)
          × IsOpen closed (reconnect_closed closed connect 0 slots m).0 (some c)
    answer none after e lt closed_ = absurd (
        contradiction closed _ (omega (arith, length-reconnect_closed closed connect 0 slots m))
          (All-usable closed connect 0 slots m up) closed_)
    answer (some c) after e lt open_ = (c, after, e, lt, open_)
