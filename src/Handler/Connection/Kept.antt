-- ===== src/Handler/Connection/Kept.antt =====
-- No request of a connection is lost: it has its response, or it waits in the map.
use native.Mathlib.Decide.{dec_lt}
use rzgate.Prelude.{
  ℕ, ◌^◌, ◌≡◌, ◌≢◌, ◌<◌, ◌≤◌, refl, sym, ◌∙◌, ◌⊎◌, inl, inr, false, Bool-cases, Option, none, some,
  List, [], ◌∷◌, length, ◌==◌, ==_refl, ==_false, arith,
}
use rzgate.Bytes.{Bytes}
use rzgate.Handler.Demux.{Entry, DemuxMap, lookup, remove, store, load_remove}
use rzgate.Handler.Demux.Laws.{lookup-remove}
use rzgate.Handler.Connection.{
  Delivery, Connection, connected, request, hand_out, read_frame, Step, requested, drained,
  read_failed, written, write_failed, kept_alive, closed_by_owner, Steps, stay, then_step,
}
use rzgate.Handler.Connection.Ids.{
  id_of, IsNumbered, connected-IsNumbered, Steps-IsNumbered, length-append_one,
}

-- The sender got a response.
abbrev pub IsDelivered : ℕ → List Delivery → Type 0
IsDelivered tx [] = ⊥
IsDelivered tx (d ∷ ds) = (d.tx ≡ tx) ⊎ IsDelivered tx ds

-- The n-th request waits under its id.
abbrev pub IsWaiting : ℕ → DemuxMap → Type 0
IsWaiting n m = (e : Entry) × (lookup (id_of n) m ≡ some e) × (e.tx ≡ n)

abbrev pub IsKept : Connection → Type 0
IsKept c = (n : ℕ) → n < length c.issued → IsDelivered n c.delivered ⊎ IsWaiting n c.demux

stored_here : (m : DemuxMap) (id n now : ℕ) → id ≡ id_of n → IsWaiting n (store m id n now)
unfolding store lookup
stored_here m id n now e = (record { tx = n; sent_at = now }, rw (e, ==_refl (id_of n)) refl, refl)

stored_elsewhere :
    (m : DemuxMap) (id n tx now : ℕ)
    → id ≢ id_of n
    → IsWaiting n m
    → IsWaiting n (store m id tx now)
unfolding store lookup
stored_elsewhere m id n tx now other (e, found, same) = (
  e,
  rw (==_false id (id_of n) other, lookup-remove id (id_of n) m, ==_false id (id_of n) other) found,
  same,
)

removed_elsewhere :
    (m : DemuxMap) (id n : ℕ) → (id == id_of n) ≡ false → IsWaiting n m → IsWaiting n (remove id m)
removed_elsewhere m id n other (e, found, same) =
    (e, rw (lookup-remove id (id_of n) m, other) found, same)

-- Two numbers below 2 ^ 32 have two ids.
distinct : (n k : ℕ) → n < k → k < 2 ^ 32 → id_of n ≢ id_of k
distinct n k lt short e = omega arith

request-IsKept :
    (frame : ℕ → Bytes) (now : ℕ) (c : Connection)
    → IsNumbered c
    → length c.issued < 2 ^ 32
    → IsKept c
    → IsKept (request frame now c)
unfolding request
request-IsKept frame now c s short k n lt = elim (dec_lt n (length c.issued)) [
  | yes older ↦ elim (k n older) [
    | inl given ↦ inl given
    | inr waits ↦ inr (
        stored_elsewhere c.demux c.corr_id n (length c.issued) now
          (λ same. distinct n (length c.issued) older short (sym same ∙ s.next_id)) waits)
  ]
  | no newer ↦
      let newest : n ≡ length c.issued = omega (arith, length-append_one c.issued c.corr_id) in
      inr (rw newest (stored_here c.demux c.corr_id (length c.issued) now s.next_id))
]

-- One entry for one id.
same_entry : (o : Option Entry) (d e : Entry) → o ≡ some d → o ≡ some e → d ≡ e
same_entry o d e h k = cc

no_entry : (o : Option Entry) (e : Entry) → o ≡ none → o ≡ some e → ⊥
no_entry o e h k = cc

-- The read loop takes a response off the map, or finds nothing.
hand_out-IsKept :
    (id : ℕ) (payload : Bytes) (c : Connection) (o : Option Entry)
    → lookup id c.demux ≡ o
    → IsKept c
    → IsKept (hand_out id payload c (o, remove id c.demux))
unfolding hand_out
hand_out-IsKept id payload c none at k n lt = elim (k n lt) [
  | inl given ↦ inl given
  | inr (e, found, same) ↦ elim (Bool-cases (id == id_of n)) [
    | inl hit ↦
        let eq : id ≡ id_of n = ground arith in
        absurd (no_entry (lookup (id_of n) c.demux) e (rw eq at at) found)
    | inr other ↦ inr (removed_elsewhere c.demux id n other (e, found, same))
  ]
]
hand_out-IsKept id payload c (some d) at k n lt = elim (k n lt) [
  | inl given ↦ inl (inr given)
  | inr (e, found, same) ↦ elim (Bool-cases (id == id_of n)) [
    | inl hit ↦
        let eq : id ≡ id_of n = ground arith in
        let one : d ≡ e = same_entry (lookup (id_of n) c.demux) d e (rw eq at at) found in
        inl (inl (rw one same))
    | inr other ↦ inr (removed_elsewhere c.demux id n other (e, found, same))
  ]
]

read_frame-IsKept :
    (id : ℕ) (payload : Bytes) (c : Connection) → IsKept c → IsKept (read_frame id payload c)
unfolding read_frame load_remove
read_frame-IsKept id payload c k = hand_out-IsKept id payload c (lookup id c.demux) refl k

hand_out-issued :
    (id : ℕ) (payload : Bytes) (c : Connection) (r : Option Entry × DemuxMap)
    → (hand_out id payload c r).issued ≡ c.issued
unfolding hand_out
hand_out-issued id payload c (none, left) = refl
hand_out-issued id payload c (some e, left) = refl

read_frame-issued :
    (id : ℕ) (payload : Bytes) (c : Connection) → (read_frame id payload c).issued ≡ c.issued
unfolding read_frame
read_frame-issued id payload c = hand_out-issued id payload c (load_remove c.demux id)

-- As long as the ids have not all been used.
abbrev KeptSoFar : Connection → Type 0
KeptSoFar c = length c.issued ≤ 2 ^ 32 → IsKept c

Step-KeptSoFar : (c d : Connection) → IsNumbered c → KeptSoFar c → Step c d → KeptSoFar d
Step-KeptSoFar c d s k (requested frame now) short =
    let fits : length c.issued < 2 ^ 32 =
      unfold request in (omega (arith, short, length-append_one c.issued c.corr_id)) in
    request-IsKept frame now c s fits (k (omega arith))
Step-KeptSoFar c d s k (drained id payload _) short =
    read_frame-IsKept id payload c (k (rw (read_frame-issued id payload c) at short))
Step-KeptSoFar c d s k (read_failed _) short = k short
Step-KeptSoFar c d s k (written _ _ _) short = k short
Step-KeptSoFar c d s k (write_failed _ _ _) short = k short
Step-KeptSoFar c d s k (kept_alive _) short = k short
Step-KeptSoFar c d s k closed_by_owner short = k short

Steps-KeptSoFar : (d : Connection) → Steps connected d → KeptSoFar d
Steps-KeptSoFar _ stay = λ short n lt. absurd (omega arith)
Steps-KeptSoFar e (then_step d _ before last) =
    Step-KeptSoFar d e (Steps-IsNumbered connected d connected-IsNumbered before)
      (Steps-KeptSoFar d before) last

-- In every order of the steps, and until all ids have been used once: each request that was sent has been handed
-- its response, or its sender still stands in the map under its own id; no step drops it, also when the
-- read loop has ended or a write has failed.
pub Steps-IsKept :
    (c : Connection) (n : ℕ)
    → Steps connected c
    → length c.issued ≤ 2 ^ 32
    → n < length c.issued
    → IsDelivered n c.delivered ⊎ IsWaiting n c.demux
Steps-IsKept c n steps short lt = Steps-KeptSoFar c steps short n lt
