-- ===== src/Handler/Pool/Scan.antt =====
-- `next_connection` finds an open connection whenever a slot holds one.
use native.Mathlib.Nat.{add-mod_left, mod-lt, mod-add-mod, mod-eq_of_lt}
use native.Mathlib.Decide.{dec_lt}
use rzgate.Prelude.{
  ℕ, zero, suc, ◌+◌, ◌-◌, ◌%◌, ◌<◌, ◌≡◌, refl, ap, ◌∙◌, Bool, true, false, inl, inr, Option, none,
  some, [], ◌∷◌, length, get_elem?, All, arith, Bool-cases,
}
use rzgate.Flow.{Flow, next}
use rzgate.Flow.Rules.{get_elem?_lt}
use rzgate.Handler.Pool.{Slots, usable, scan, next_connection}

-- What the loop answers, after it has looked at `rounds` slots from `idx` on: a slot that holds an open
-- connection, or nothing because none of those slots does. The index stays inside the pool.
data Found (closed : ℕ → Bool) (conns : Slots) (rounds idx : ℕ) : Option ℕ × ℕ → Type 0 where
  hit :
      (i c after : ℕ)
      → get_elem? conns i ≡ some (some c)
      → closed c ≡ false
      → after < length conns
      → Found closed conns rounds idx (some c, after)
  miss :
      (after : ℕ)
      → ((k : ℕ)
          → k < rounds
          → (slot : Option ℕ) → get_elem? conns ((idx + k) % length conns) ≡ some slot
          → usable closed slot ≡ false)
      → after < length conns
      → Found closed conns rounds idx (none, after)

usable-some :
    (closed : ℕ → Bool) (slot : Option ℕ)
    → usable closed slot ≡ true
    → (c : ℕ) × (slot ≡ some c) × (closed c ≡ false)
usable-some closed none h = cc
usable-some closed (some c) h = (c, refl, ground arith)

module _ (closed : ℕ → Bool) (conns : Slots) where
  abbrev Answers : ℕ → ℕ → Flow (Option ℕ × ℕ) → Type 0
  Answers rounds idx r = (a : Option ℕ × ℕ) × (r ≡ next a) × Found closed conns rounds idx a

  shift : (idx k : ℕ) → ((idx + 1) % length conns + k) % length conns ≡ (idx + suc k) % length conns
  shift idx k =
      mod-add-mod (idx + 1) (length conns) k ∙ ap (λ (t : ℕ). t % length conns) (omega arith)

  Found-later :
      (rounds idx : ℕ) (slot : Option ℕ) (a : Option ℕ × ℕ)
      → idx < length conns
      → get_elem? conns idx ≡ some slot
      → usable closed slot ≡ false
      → Found closed conns rounds ((idx + 1) % length conns) a
      → Found closed conns (suc rounds) idx a
  Found-later rounds idx slot a lt e h (hit i c after at open_ inside) =
      hit i c after at open_ inside
  Found-later rounds idx slot a lt e h (miss after none_ inside) = miss after looked inside
    where
      looked :
          (k : ℕ)
          → k < suc rounds
          → (slot' : Option ℕ) → get_elem? conns ((idx + k) % length conns) ≡ some slot'
          → usable closed slot' ≡ false
      looked zero k_lt slot' e' = ground (arith, mod-eq_of_lt lt)
      looked (suc k) k_lt slot' e' = none_ k (omega arith) slot' (rw (shift idx k) e')

  scan-Answers :
      (rounds idx : ℕ) → idx < length conns → Answers rounds idx (scan closed conns rounds idx)
  unfolding scan
  scan-Answers zero idx h = ((none, idx), refl, miss idx (λ k lt. absurd (omega arith)) h)
  scan-Answers (suc rounds) idx h =
      let (slot, e) = get_elem?_lt conns idx h in
      let after : (idx + 1) % length conns < length conns = mod-lt (idx + 1) (omega arith) in
      rw e (elim (Bool-cases (usable closed slot)) [
        | inl good ↦
            let (c, s, o) = usable-some closed slot good in
            ((slot, (idx + 1) % length conns), rw good, rw s (hit idx c _ (rw s at e) o after))
        | inr bad ↦
            let (a, s, f) = scan-Answers rounds ((idx + 1) % length conns) after in
            rw (bad, s) (a, refl, Found-later rounds idx slot a h e bad f)
      ])

  get_elem?-some :
      (xs : Slots) (i : ℕ) (slot : Option ℕ) → get_elem? xs i ≡ some slot → i < length xs
  get_elem?-some [] i slot e = cc
  get_elem?-some (x ∷ xs) zero slot e = omega arith
  get_elem?-some (x ∷ xs) (suc i) slot e = omega (arith, get_elem?-some xs i slot e)

  -- Every slot is looked at: the rounds to it from `idx`.
  round_of :
      (idx i : ℕ)
      → idx < length conns
      → i < length conns
      → (k : ℕ) × (k < length conns) × ((idx + k) % length conns ≡ i)
  round_of idx i h l = elim (dec_lt i idx) [
    | yes before ↦
        let e : idx + (length conns + i - idx) ≡ length conns + i = omega arith in
        (length conns + i - idx, omega arith, rw e (add-mod_left (length conns) i ∙ mod-eq_of_lt l))
    | no behind ↦
        let e : idx + (i - idx) ≡ i = omega arith in (i - idx, omega arith, rw e (mod-eq_of_lt l))
  ]

  -- An answer names an open connection that stands in a slot; no answer, that no slot holds one.
  abbrev pub IsOpen : Option ℕ → Type 0
  IsOpen none = All (λ slot. usable closed slot ≡ false) conns
  IsOpen (some c) = (i : ℕ) × (get_elem? conns i ≡ some (some c)) × (closed c ≡ false)

  All-slots :
      (xs : Slots)
      → ((i : ℕ) (slot : Option ℕ) → get_elem? xs i ≡ some slot → usable closed slot ≡ false)
      → All (λ slot. usable closed slot ≡ false) xs
  All-slots [] h = tt
  All-slots (x ∷ xs) h = (h 0 x refl, All-slots xs (λ i slot e. h (suc i) slot e))

  Found-IsOpen :
      (idx : ℕ) (found : Option ℕ) (after : ℕ)
      → idx < length conns
      → Found closed conns (length conns) idx (found, after)
      → IsOpen found
  Found-IsOpen idx found after h (hit i c _ at open_ inside) = (i, at, open_)
  Found-IsOpen idx found after h (miss _ none_ inside) = All-slots conns (λ i slot at.
      let (k, lt, r) = round_of idx i h (get_elem?-some conns i slot at) in
      none_ k lt slot (rw r at))

  Found-lt :
      (rounds idx : ℕ) (a : Option ℕ × ℕ) → Found closed conns rounds idx a → a.1 < length conns
  Found-lt rounds idx a (hit i c after at open_ inside) = inside
  Found-lt rounds idx a (miss after none_ inside) = inside

  -- `next_connection` never panics from an index inside the pool, and leaves the index inside. A
  -- connection that it answers with stands in a slot and is open; it answers with none only if no
  -- slot holds an open connection.
  pub next_connection_lem :
      (idx : ℕ)
      → idx < length conns
      → (found : Option ℕ) × (after : ℕ) × (next_connection closed conns idx ≡ next (found, after))
        × (after < length conns)
        × IsOpen found
  unfolding next_connection
  next_connection_lem idx h =
      let ((found, after), e, f) = scan-Answers (length conns) idx h in
      (
        found,
        after,
        e,
        Found-lt (length conns) idx (found, after) f,
        Found-IsOpen idx found after h f,
      )

-- A pool without slots has no connection to look at.
pub next_connection_empty :
    (closed : ℕ → Bool) (idx : ℕ) → next_connection closed [] idx ≡ next (none, idx)
unfolding next_connection scan
next_connection_empty closed idx = refl
