-- ===== src/Handler/Demux/Refines.antt =====
-- The demultiplexer implements a function from ids to the requests that wait.
use rzgate.Prelude.{
  ℕ, ◌-◌, ◌≡◌, refl, ap, ◌∙◌, true, Bool-cases, inl, inr, Option, none, some, List, [], ◌∷◌, ◌==◌,
  ltb, arith, if◌then◌else◌,
}
use rzgate.Flow.{Flow, next, panic, ◌>>=◌}
use rzgate.Handler.Demux.{Entry, DemuxMap, new, lookup, remove, store, load_remove, cleanup}
use rzgate.Handler.Demux.Laws.{
  lookup-remove, IsMap, store-IsMap, load_remove-IsMap, unless_old, cleanup_lem,
}

-- The calls on the map.
pub data Call : Type 0 where
  storing : (corr_id tx sent_at : ℕ) → Call
  taking : (corr_id : ℕ) → Call
  cleaning : (max_age now : ℕ) → Call

-- The sender that a call hands out, and the map behind it.
abbrev pub perform_call : Call → DemuxMap → Flow (Option Entry × DemuxMap)
perform_call (storing corr_id tx sent_at) m = next (none, store m corr_id tx sent_at)
perform_call (taking corr_id) m = next (load_remove m corr_id)
perform_call (cleaning max_age now) m = cleanup m max_age now >>= λ (left, _). next (none, left)

abbrev pub perform_calls : List Call → DemuxMap → Flow (List (Option Entry) × DemuxMap)
perform_calls [] m = next ([], m)
perform_calls (c ∷ cs) m = perform_call c m >>= λ (given, left).
    perform_calls cs left >>= λ (others, last). next (given ∷ others, last)

-- The specification.
abbrev pub Waiting : Type 0
Waiting = ℕ → Option Entry

abbrev pub nobody : Waiting
nobody _ = none

abbrev pub specify_call : Call → Waiting → Flow (Option Entry × Waiting)
specify_call (storing corr_id tx sent_at) w =
    next (none, λ j. if corr_id == j then some (record { tx = tx; sent_at = sent_at }) else w j)
specify_call (taking corr_id) w = next (w corr_id, λ j. if corr_id == j then none else w j)
specify_call (cleaning max_age now) w =
    if ltb now max_age then panic else next (none, λ j. unless_old (now - max_age) (w j))

abbrev pub specify_calls : List Call → Waiting → Flow (List (Option Entry) × Waiting)
specify_calls [] w = next ([], w)
specify_calls (c ∷ cs) w = specify_call c w >>= λ (given, left).
    specify_calls cs left >>= λ (others, last). next (given ∷ others, last)

-- The map has one entry for an id at most, and finds what the function gives.
abbrev pub Refines : DemuxMap → Waiting → Type 0
Refines m w = IsMap m × ((j : ℕ) → lookup j m ≡ w j)

-- Both go on with the same answers and related states, or both panic.
pub data Same {A : Type 0} : Flow (A × DemuxMap) → Flow (A × Waiting) → Type 0 where
  both_next : (a : A) (m : DemuxMap) (w : Waiting) → Refines m w → Same (next (a, m)) (next (a, w))
  both_panic : Same panic panic

Same-bind :
    {A B : Type 0} (p : Flow (A × DemuxMap)) (q : Flow (A × Waiting))
    (f : A × DemuxMap → Flow (B × DemuxMap)) (g : A × Waiting → Flow (B × Waiting))
    → Same p q
    → ((a : A) (m : DemuxMap) (w : Waiting) → Refines m w → Same (f (a, m)) (g (a, w)))
    → Same (p >>= f) (q >>= g)
Same-bind _ _ f g (both_next a m w r) k = k a m w r
Same-bind _ _ f g both_panic k = both_panic

storing-Refines :
    (m : DemuxMap) (w : Waiting) (corr_id tx sent_at : ℕ)
    → Refines m w
    → Refines
        (store m corr_id tx sent_at)
        (λ j. if corr_id == j then some (record { tx = tx; sent_at = sent_at }) else w j)
unfolding store lookup
storing-Refines m w corr_id tx sent_at (map_, same) = (
  store-IsMap m corr_id tx sent_at map_,
  λ j. elim (Bool-cases (corr_id == j)) [
    | inl hit ↦ rw hit refl
    | inr other ↦ rw (other, lookup-remove corr_id j m, other) (same j)
  ],
)

taking-Same :
    (m : DemuxMap) (w : Waiting) (corr_id : ℕ)
    → Refines m w
    → Same
        (next (load_remove m corr_id))
        (next (w corr_id, λ j. if corr_id == j then none else w j))
unfolding load_remove
taking-Same m w corr_id (map_, same) = rw (← same corr_id) (
    both_next (lookup corr_id m) (remove corr_id m) (λ j. if corr_id == j then none else w j)
      (load_remove-IsMap m corr_id map_, λ j. rw (lookup-remove corr_id j m, same j) refl))

cleanup_early :
    (m : DemuxMap) (max_age now : ℕ) → ltb now max_age ≡ true → cleanup m max_age now ≡ panic
unfolding cleanup
cleanup_early m max_age now h = rw h refl

cleaning-Same :
    (m : DemuxMap) (w : Waiting) (max_age now : ℕ)
    → Refines m w
    → Same (perform_call (cleaning max_age now) m) (specify_call (cleaning max_age now) w)
cleaning-Same m w max_age now (map_, same) = elim (Bool-cases (ltb now max_age)) [
  | inl early ↦ rw (cleanup_early m max_age now early, early) both_panic
  | inr late ↦
      let (left, e, left_map, found) = cleanup_lem m max_age now map_ (ground (arith, late)) in
      rw (e, late)
        (both_next none left _ (left_map, λ j. found j ∙ ap (unless_old (now - max_age)) (same j)))
]

perform_call-Same :
    (c : Call) (m : DemuxMap) (w : Waiting)
    → Refines m w
    → Same (perform_call c m) (specify_call c w)
perform_call-Same (storing corr_id tx sent_at) m w r =
    both_next none _ _ (storing-Refines m w corr_id tx sent_at r)
perform_call-Same (taking corr_id) m w r = taking-Same m w corr_id r
perform_call-Same (cleaning max_age now) m w r = cleaning-Same m w max_age now r

perform_calls-Same :
    (cs : List Call) (m : DemuxMap) (w : Waiting)
    → Refines m w
    → Same (perform_calls cs m) (specify_calls cs w)
perform_calls-Same [] m w r = both_next [] m w r
perform_calls-Same (c ∷ cs) m w r =
    Same-bind (perform_call c m) (specify_call c w) _ _ (perform_call-Same c m w r)
      λ given left v r1.
        Same-bind (perform_calls cs left) (specify_calls cs v) _ _ (perform_calls-Same cs left v r1)
          λ others last u r2. both_next (given ∷ others) last u r2

-- From the new map, every sequence of calls does what it does to a function from ids to waiting requests: `store`
-- sets the function at one id, `load_remove` gives its value there and clears it, `cleanup` clears the old
-- requests, or panics if the clock is below the age. Both give the same requests in the same order, or both
-- panic; at the end, what the map finds is the function, and no id stands in the map twice.
pub perform_calls-new : (cs : List Call) → Same (perform_calls cs new) (specify_calls cs nobody)
unfolding lookup
perform_calls-new cs = perform_calls-Same cs new nobody (tt, λ j. refl)
