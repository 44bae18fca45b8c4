-- ===== src/Handler/Demux/Laws.antt =====
-- The map of waiting requests: what is found after each operation.
use rzgate.Prelude.{
  ℕ, ◌-◌, ◌≤◌, ◌≡◌, refl, ap, ◌∙◌, Bool, true, false, Option, none, some, List, [], ◌∷◌, arith, ltb,
  ◌==◌, ==_refl, le→ltb, if◌then◌else◌, Bool-cases, inl, inr,
}
use rzgate.Bytes.{Bytes}
use rzgate.Flow.{next}
use rzgate.Handler.Demux.{
  Entry, DemuxMap, lookup, remove, store, load_remove, timed_out, expire, cleanup,
}

pub lookup-remove :
    (id j : ℕ) (m : DemuxMap) → lookup j (remove id m) ≡ (if id == j then none else lookup j m)
unfolding lookup remove
lookup-remove id j [] = ground arith
lookup-remove id j ((k, e) ∷ m) = ground (arith, lookup-remove id j m)

-- After `store`, a `load_remove` of the same id hands out the stored sender, and then the id is gone;
-- every other id is found as before the `store`.
pub load_remove-store :
    (m : DemuxMap) (id tx sent_at : ℕ)
    → ((load_remove (store m id tx sent_at) id).0 ≡ some (record { tx = tx; sent_at = sent_at }))
      × ((j : ℕ)
          → lookup j (load_remove (store m id tx sent_at) id).1
            ≡ (if id == j then none else lookup j m))
unfolding load_remove store lookup
load_remove-store m id tx sent_at = (
  rw (==_refl id),
  λ j. elim (Bool-cases (id == j)) [
    | inl same ↦ rw (lookup-remove id j (store m id tx sent_at), same)
    | inr other ↦
        rw (lookup-remove id j (store m id tx sent_at), other, lookup-remove id j m, other)
  ],
)

-- Whether an entry is gone after the ids have expired.
unfoldable pub member : ℕ → List ℕ → Bool
member id [] = false
member id (k ∷ ks) = if k == id then true else member id ks

lookup-expire :
    (ids : List ℕ) (m : DemuxMap) (j : ℕ)
    → lookup j (expire ids m).0 ≡ (if member j ids then none else lookup j m)
unfolding expire member load_remove
lookup-expire [] m j = refl
lookup-expire (id ∷ ids) m j =
    ground (arith, lookup-expire ids (remove id m) j, lookup-remove id j m)

-- No two entries have one id.
abbrev pub IsMap : DemuxMap → Type 0
IsMap [] = Unit
IsMap ((k, _) ∷ m) = (lookup k m ≡ none) × IsMap m

remove-IsMap : (id : ℕ) (m : DemuxMap) → IsMap m → IsMap (remove id m)
unfolding remove
remove-IsMap id [] h = tt
remove-IsMap id ((k, e) ∷ m) (fresh, h) = elim (Bool-cases (k == id)) [
  | inl same ↦ rw same (remove-IsMap id m h)
  | inr other ↦ rw other (ground (arith, lookup-remove id k m), remove-IsMap id m h)
]

pub store-IsMap : (m : DemuxMap) (id tx sent_at : ℕ) → IsMap m → IsMap (store m id tx sent_at)
unfolding store
store-IsMap m id tx sent_at h = (rw (lookup-remove id id m, ==_refl id), remove-IsMap id m h)

pub load_remove-IsMap : (m : DemuxMap) (id : ℕ) → IsMap m → IsMap (load_remove m id).1
unfolding load_remove
load_remove-IsMap m id h = remove-IsMap id m h

expire-IsMap : (ids : List ℕ) (m : DemuxMap) → IsMap m → IsMap (expire ids m).0
unfolding expire load_remove
expire-IsMap [] m h = h
expire-IsMap (id ∷ ids) m h = expire-IsMap ids (remove id m) (remove-IsMap id m h)

-- An entry is old if it was sent before the threshold.
abbrev is_old : ℕ → Option Entry → Bool
is_old t none = false
is_old t (some e) = ltb e.sent_at t

member-timed_out :
    (t : ℕ) (m : DemuxMap) (j : ℕ) → IsMap m → member j (timed_out t m) ≡ is_old t (lookup j m)
unfolding member timed_out lookup
member-timed_out t [] j h = refl
member-timed_out t ((k, e) ∷ m) j (fresh, h) = ground (arith, member-timed_out t m j h)

remove_absent : (id : ℕ) (m : DemuxMap) → lookup id m ≡ none → remove id m ≡ m
unfolding remove lookup
remove_absent id [] h = refl
remove_absent id ((k, e) ∷ m) h = ground (arith, remove_absent id m)

-- The senders of the old entries, in order, each with the empty response.
abbrev pub notices : ℕ → DemuxMap → List (ℕ × Bytes)
notices t [] = []
notices t ((k, e) ∷ m) = if ltb e.sent_at t then (e.tx, []) ∷ notices t m else notices t m

expire_skip :
    (ids : List ℕ) (k : ℕ) (e : Entry) (m : DemuxMap)
    → member k ids ≡ false
    → (expire ids ((k, e) ∷ m)).1 ≡ (expire ids m).1
unfolding expire member load_remove lookup remove
expire_skip [] k e m h = refl
expire_skip (id ∷ ids) k e m h = ground (arith, expire_skip ids k e (remove id m))

expire_hit :
    (ids : List ℕ) (k : ℕ) (e : Entry) (m : DemuxMap)
    → lookup k m ≡ none
    → (expire (k ∷ ids) ((k, e) ∷ m)).1 ≡ (e.tx, []) ∷ (expire ids m).1
unfolding expire load_remove lookup remove
expire_hit ids k e m fresh = ground (arith, remove_absent k m fresh)

expire-notices : (t : ℕ) (m : DemuxMap) → IsMap m → (expire (timed_out t m) m).1 ≡ notices t m
unfolding timed_out
expire-notices t [] h = unfold expire in refl
expire-notices t ((k, e) ∷ m) (fresh, h) = elim (Bool-cases (ltb e.sent_at t)) [
  | inl old ↦
      rw old (expire_hit (timed_out t m) k e m fresh ∙ ap (◌∷◌ (e.tx, [])) (expire-notices t m h))
  | inr young ↦ rw young (
      expire_skip (timed_out t m) k e m (member-timed_out t m k h ∙ rw fresh)
      ∙ expire-notices t m h)
]

-- What a lookup finds after a cleanup.
abbrev pub unless_old : ℕ → Option Entry → Option Entry
unless_old t none = none
unless_old t (some e) = if ltb e.sent_at t then none else some e

keep_young : (t : ℕ) (o : Option Entry) → (if is_old t o then none else o) ≡ unless_old t o
keep_young t none = refl
keep_young t (some e) = refl

-- A cleanup removes exactly the entries that were sent before `now - max_age`, gives each of their
-- senders the empty response, and keeps the map well formed. The clock is not below `max_age`.
pub cleanup_lem :
    (m : DemuxMap) (max_age now : ℕ)
    → IsMap m
    → max_age ≤ now
    → (m' : DemuxMap) × (cleanup m max_age now ≡ next (m', notices (now - max_age) m))
      × IsMap m'
      × ((j : ℕ) → lookup j m' ≡ unless_old (now - max_age) (lookup j m))
unfolding cleanup
cleanup_lem m max_age now h le = (
  (expire (timed_out (now - max_age) m) m).0,
  rw (le→ltb now max_age le, ← expire-notices (now - max_age) m h),
  expire-IsMap (timed_out (now - max_age) m) m h,
  λ j.
      lookup-expire (timed_out (now - max_age) m) m j
      ∙ rw (member-timed_out (now - max_age) m j h) (keep_young (now - max_age) (lookup j m)),
)
