-- ===== src/Handler/Connection/Matching.antt =====
-- Responses reach the requests that they answer.
use rzgate.Prelude.{
  ℕ, zero, suc, ◌≡◌, ◌≢◌, ◌<◌, refl, ◌∙◌, Option, none, some, List, [], ◌∷◌, ◌++◌, length,
  get_elem?, get_elem?-prefix, All, arith, ◌==◌, Bool-cases, Option-cases, inl, inr, ◌⊎◌,
}
use rzgate.Bytes.{Bytes}
use rzgate.Handler.Demux.{Entry, DemuxMap, lookup, remove, store, load_remove}
use rzgate.Handler.Demux.Laws.{lookup-remove}
use rzgate.Handler.Connection.{
  Delivery, Connection, connected, request, stop_reading, hand_out, read_frame, Step, requested,
  drained, read_failed, written, write_failed, kept_alive, closed_by_owner, Steps, stay, then_step,
}

-- No delivery went to this sender.
abbrev IsUnanswered : ℕ → List Delivery → Type 0
IsUnanswered tx ds = All (λ d. d.tx ≢ tx) ds

-- No sender was used twice.
abbrev pub IsOnce : List Delivery → Type 0
IsOnce [] = Unit
IsOnce (d ∷ ds) = IsUnanswered d.tx ds × IsOnce ds

-- Each delivery went to a request that was sent under the id of the response.
abbrev pub IsMatched : List ℕ → List Delivery → Type 0
IsMatched issued ds = All (λ d. get_elem? issued d.tx ≡ some d.id) ds

record IsSound (c : Connection) : Type 0 where
  waiting : (k : ℕ) (e : Entry) → lookup k c.demux ≡ some e → get_elem? c.issued e.tx ≡ some k
  unanswered : (k : ℕ) (e : Entry) → lookup k c.demux ≡ some e → IsUnanswered e.tx c.delivered
  matched : IsMatched c.issued c.delivered
  once : IsOnce c.delivered

get_elem?_bound : (xs : List ℕ) (i x : ℕ) → get_elem? xs i ≡ some x → i < length xs
get_elem?_bound [] i x e = cc
get_elem?_bound (y ∷ xs) zero x e = omega arith
get_elem?_bound (y ∷ xs) (suc i) x e = omega (arith, get_elem?_bound xs i x e)

kept : (xs : List ℕ) (n i x : ℕ) → get_elem? xs i ≡ some x → get_elem? (xs ++ (n ∷ [])) i ≡ some x
kept xs n i x e = get_elem?-prefix xs (n ∷ []) i (get_elem?_bound xs i x e) ∙ e

newest : (xs : List ℕ) (n : ℕ) → get_elem? (xs ++ (n ∷ [])) (length xs) ≡ some n
newest [] n = refl
newest (x ∷ xs) n = newest xs n

IsMatched-later :
    (xs : List ℕ) (n : ℕ) (ds : List Delivery) → IsMatched xs ds → IsMatched (xs ++ (n ∷ [])) ds
IsMatched-later xs n [] h = tt
IsMatched-later xs n (d ∷ ds) h = (kept xs n d.tx d.id h.0, IsMatched-later xs n ds h.1)

fresh-IsUnanswered :
    (xs : List ℕ) (ds : List Delivery) → IsMatched xs ds → IsUnanswered (length xs) ds
fresh-IsUnanswered xs [] h = tt
fresh-IsUnanswered xs (d ∷ ds) h =
    ((λ e. omega (arith, get_elem?_bound xs d.tx d.id h.0)), fresh-IsUnanswered xs ds h.1)

abbrev waiting_entry : ℕ → ℕ → Entry
waiting_entry t now = record { tx = t; sent_at = now }

entry_of : (t now : ℕ) (e : Entry) → some (waiting_entry t now) ≡ some e → e.tx ≡ t
entry_of t now e h = cc

-- What is found after a `store`.
found_stored :
    (m : DemuxMap) (id tx now k : ℕ) (e : Entry)
    → lookup k (store m id tx now) ≡ some e
    → ((id ≡ k) × (e.tx ≡ tx)) ⊎ (lookup k m ≡ some e)
unfolding lookup store
found_stored m id tx now k e h = elim (Bool-cases (id == k)) [
  | inl same ↦ inl (ground arith, entry_of tx now e (rw same at h))
  | inr other ↦ inr (rw (other, lookup-remove id k m, other) at h)
]

found_left :
    (m : DemuxMap) (id k : ℕ) (e : Entry)
    → lookup k (remove id m) ≡ some e
    → (id ≢ k) × (lookup k m ≡ some e)
found_left m id k e h = elim (Bool-cases (id == k)) [
  | inl same ↦ absurd (nothing e (rw (lookup-remove id k m, same) at h))
  | inr other ↦ ((λ eq. ground arith), rw (lookup-remove id k m, other) at h)
]
  where
    nothing : (e : Entry) → none ≡ some e → ⊥
    nothing e h = cc

request-IsSound :
    (frame : ℕ → Bytes) (now : ℕ) (c : Connection) → IsSound c → IsSound (request frame now c)
unfolding request
request-IsSound frame now c s = record {
  waiting = λ k e h. elim (found_stored c.demux c.corr_id (length c.issued) now k e h) [
    | inl (id, tx) ↦ rw (← id, tx) (newest c.issued c.corr_id)
    | inr old ↦ kept c.issued c.corr_id e.tx k (s.waiting k e old)
  ];
  unanswered = λ k e h. elim (found_stored c.demux c.corr_id (length c.issued) now k e h) [
    | inl (id, tx) ↦ rw tx (fresh-IsUnanswered c.issued c.delivered s.matched)
    | inr old ↦ s.unanswered k e old
  ];
  matched = IsMatched-later c.issued c.corr_id c.delivered s.matched;
  once = s.once;
}

left-IsSound :
    (id : ℕ) (c : Connection)
    → IsSound c
    → IsSound (stop_reading (record c { demux = remove id c.demux }))
left-IsSound id c s = record {
  waiting = λ k e h. s.waiting k e (found_left c.demux id k e h).1;
  unanswered = λ k e h. s.unanswered k e (found_left c.demux id k e h).1;
  matched = s.matched;
  once = s.once;
}

-- Two waiting requests have two senders.
other_sender :
    (c : Connection) (id k : ℕ) (e d : Entry)
    → IsSound c
    → id ≢ k
    → lookup id c.demux ≡ some e
    → lookup k c.demux ≡ some d
    → e.tx ≢ d.tx
other_sender c id k e d s other at_id at_k same =
    other (one (get_elem? c.issued e.tx) id k (s.waiting id e at_id) (rw same (s.waiting k d at_k)))
  where
    one : (o : Option ℕ) (a b : ℕ) → o ≡ some a → o ≡ some b → a ≡ b
    one o a b h h2 = cc

read_frame-IsSound :
    (id : ℕ) (payload : Bytes) (c : Connection) → IsSound c → IsSound (read_frame id payload c)
unfolding read_frame hand_out load_remove
read_frame-IsSound id payload c s = elim (Option-cases (lookup id c.demux)) [
  | inl missing ↦ rw missing (left-IsSound id c s)
  | inr (e, found) ↦ rw found (record {
    waiting = λ k d h. s.waiting k d (found_left c.demux id k d h).1;
    unanswered = λ k d h.
        let (other, at) = found_left c.demux id k d h in
        (other_sender c id k e d s other found at, s.unanswered k d at);
    matched = (s.waiting id e found, s.matched);
    once = (s.unanswered id e found, s.once);
  })
]

Step-IsSound : (c d : Connection) → IsSound c → Step c d → IsSound d
Step-IsSound c d s (requested frame now) = request-IsSound frame now c s
Step-IsSound c d s (drained id payload _) = read_frame-IsSound id payload c s
Step-IsSound c d s (read_failed _) = record {
  waiting = s.waiting;
  unanswered = s.unanswered;
  matched = s.matched;
  once = s.once;
}
Step-IsSound c d s (written _ _ _) = record {
  waiting = s.waiting;
  unanswered = s.unanswered;
  matched = s.matched;
  once = s.once;
}
Step-IsSound c d s (write_failed _ _ _) = record {
  waiting = s.waiting;
  unanswered = s.unanswered;
  matched = s.matched;
  once = s.once;
}
Step-IsSound c d s (kept_alive _) = record {
  waiting = s.waiting;
  unanswered = s.unanswered;
  matched = s.matched;
  once = s.once;
}
Step-IsSound c d s closed_by_owner = record {
  waiting = s.waiting;
  unanswered = s.unanswered;
  matched = s.matched;
  once = s.once;
}

Steps-IsSound : (c d : Connection) → IsSound c → Steps c d → IsSound d
Steps-IsSound c d s stay = s
Steps-IsSound c d s (then_step e _ more last) = Step-IsSound e d (Steps-IsSound c e s more) last

connected-IsSound : IsSound connected
unfolding lookup
connected-IsSound = record {
  waiting = λ k e h. cc;
  unanswered = λ k e h. cc;
  matched = tt;
  once = tt;
}

-- In every order of the steps of requests, tasks and owner, from a connection that has just been
-- made: a response is handed out only to a request that was sent under the response's correlation
-- id, and no request is handed two responses.
pub Steps-IsMatched :
    (c : Connection) → Steps connected c → IsMatched c.issued c.delivered × IsOnce c.delivered
Steps-IsMatched c steps =
    let s = Steps-IsSound connected c connected-IsSound steps in (s.matched, s.once)
