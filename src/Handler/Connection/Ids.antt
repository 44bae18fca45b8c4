-- ===== src/Handler/Connection/Ids.antt =====
-- The correlation ids that a connection issues: a 32-bit counter that wraps.
use native.Mathlib.Nat.{mod-add-mod}
use rzgate.Prelude.{
  ℕ, zero, suc, ◌+◌, ◌%◌, ◌^◌, ◌≡◌, ◌≢◌, ◌<◌, refl, sym, ap, ◌∙◌, Option, none, some, List, [], ◌∷◌,
  ◌++◌, length, get_elem?, arith,
}
use rzgate.Bytes.{Bytes}
use rzgate.Handler.Connection.{
  Connection, connected, request, hand_out, read_frame, Step, requested, drained, read_failed,
  written, write_failed, kept_alive, closed_by_owner, Steps, stay, then_step,
}
use rzgate.Handler.Demux.{Entry, DemuxMap, load_remove}

abbrev pub id_of : ℕ → ℕ
id_of n = (n + 1) % 2 ^ 32

-- The ids in their order, from the `n`-th one on.
abbrev Counts : ℕ → List ℕ → Type 0
Counts n [] = Unit
Counts n (id ∷ ids) = (id ≡ id_of n) × Counts (n + 1) ids

pub record IsNumbered (c : Connection) : Type 0 where
  ids : Counts 0 c.issued
  pub next_id : c.corr_id ≡ id_of (length c.issued)

Counts-append :
    (n : ℕ) (ids : List ℕ) (id : ℕ)
    → Counts n ids
    → id ≡ id_of (n + length ids)
    → Counts n (ids ++ (id ∷ []))
Counts-append n [] id h e = (e ∙ ap id_of (omega arith), tt)
Counts-append n (x ∷ ids) id h e =
    (h.0, Counts-append (n + 1) ids id h.1 (e ∙ ap id_of (omega arith)))

pub length-append_one : (ids : List ℕ) (id : ℕ) → length (ids ++ (id ∷ [])) ≡ length ids + 1
length-append_one [] id = omega arith
length-append_one (x ∷ ids) id = omega (arith, length-append_one ids id)

request-IsNumbered :
    (frame : ℕ → Bytes) (now : ℕ) (c : Connection) → IsNumbered c → IsNumbered (request frame now c)
unfolding request
request-IsNumbered frame now c s = record {
  ids = Counts-append 0 c.issued c.corr_id s.ids (s.next_id ∙ ap id_of (omega arith));
  next_id =
      ap (λ (t : ℕ). (t + 1) % 2 ^ 32) s.next_id
      ∙ mod-add-mod (length c.issued + 1) (2 ^ 32) 1
      ∙ ap id_of (sym (length-append_one c.issued c.corr_id));
}

-- A step that issues no id.
kept_ids :
    (c d : Connection) → d.issued ≡ c.issued → d.corr_id ≡ c.corr_id → IsNumbered c → IsNumbered d
kept_ids c d i n s = record { ids = rw i s.ids; next_id = rw (i, n) s.next_id }

hand_out-IsNumbered :
    (id : ℕ) (payload : Bytes) (c : Connection) (r : Option Entry × DemuxMap)
    → IsNumbered c
    → IsNumbered (hand_out id payload c r)
unfolding hand_out
hand_out-IsNumbered id payload c (none, left) s = kept_ids c _ refl refl s
hand_out-IsNumbered id payload c (some e, left) s = kept_ids c _ refl refl s

read_frame-IsNumbered :
    (id : ℕ) (payload : Bytes) (c : Connection)
    → IsNumbered c
    → IsNumbered (read_frame id payload c)
unfolding read_frame
read_frame-IsNumbered id payload c s = hand_out-IsNumbered id payload c (load_remove c.demux id) s

Step-IsNumbered : (c d : Connection) → IsNumbered c → Step c d → IsNumbered d
Step-IsNumbered c d s (requested frame now) = request-IsNumbered frame now c s
Step-IsNumbered c d s (drained id payload _) = read_frame-IsNumbered id payload c s
Step-IsNumbered c d s (read_failed _) = kept_ids c _ refl refl s
Step-IsNumbered c d s (written _ _ _) = kept_ids c _ refl refl s
Step-IsNumbered c d s (write_failed _ _ _) = kept_ids c _ refl refl s
Step-IsNumbered c d s (kept_alive _) = kept_ids c _ refl refl s
Step-IsNumbered c d s closed_by_owner = kept_ids c _ refl refl s

pub Steps-IsNumbered : (c d : Connection) → IsNumbered c → Steps c d → IsNumbered d
Steps-IsNumbered c d s stay = s
Steps-IsNumbered c d s (then_step e _ more last) =
    Step-IsNumbered e d (Steps-IsNumbered c e s more) last

pub connected-IsNumbered : IsNumbered connected
connected-IsNumbered = record { ids = tt; next_id = refl }

nth_id :
    (n : ℕ) (ids : List ℕ) (i id : ℕ)
    → Counts n ids
    → get_elem? ids i ≡ some id
    → id ≡ id_of (n + i)
nth_id n [] i id h e = cc
nth_id n (x ∷ ids) zero id h e = let same : x ≡ id = cc in sym same ∙ h.0 ∙ ap id_of (omega arith)
nth_id n (x ∷ ids) (suc i) id h e = nth_id (n + 1) ids i id h.1 e ∙ ap id_of (omega arith)

-- The id of the n-th request of a connection, counted from zero, is n + 1 modulo 2 ^ 32, so that it fits 32
-- bits; and a later request has another id, if fewer than 2 ^ 32 requests later.
pub Steps-id_of :
    (c : Connection) (n k id later : ℕ)
    → Steps connected c
    → get_elem? c.issued n ≡ some id
    → get_elem? c.issued k ≡ some later
    → n < k
    → k < n + 2 ^ 32
    → (id ≡ (n + 1) % 2 ^ 32) × (id < 2 ^ 32) × (id ≢ later)
Steps-id_of c n k id later steps at_n at_k lt near =
    let s = Steps-IsNumbered connected c connected-IsNumbered steps in
    let first = nth_id 0 c.issued n id s.ids at_n in
    let second = nth_id 0 c.issued k later s.ids at_k in
    (first ∙ ap id_of (omega arith), omega arith, λ same. omega arith)
