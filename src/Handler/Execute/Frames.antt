-- ===== src/Handler/Execute/Frames.antt =====
-- The frames that `execute` sends, as their reader finds them: the shard in standalone mode, the router else.
use rzgate.Prelude.{
  ℕ, suc, ◌+◌, ◌*◌, ◌%◌, ◌^◌, ◌≡◌, ◌<◌, Bool-cases, inl, inr, Option, none, some, List, [], ◌∷◌,
  ◌++◌, length, All, All-append, arith, leb, ◌==◌,
}
use rzgate.Bytes.{Bytes, IsU32}
use rzgate.Flow.{Flow, next, invalid, panic, stuck}
use rzgate.Flow.Rules.{Only, has, early_only, panic_only, stuck_only, Only-bind, Only-if}
use rzgate.RzError.{Result}
use rzgate.Config.{Mode, standalone, router}
use rzgate.Protocol.Frame.Layout.{
  shard, read_shard, read_router, read_shard-prepend_header, read_router-prepend_router_header,
}
use rzgate.Handler.Pool.{next_connection}
use rzgate.Handler.Execute.{
  Request, Turn, Event, sent, slept, Client, Outcome, update, frame_of, note, retry, send,
  still_open, answered, attempt, run, execute,
}

-- The lengths fit the frame's fields.
abbrev pub FrameFits : Mode → Request → Type 0
FrameFits standalone r = IsU32 (length r.payload)
FrameFits router r = (length r.segment < 256) × IsU32 (length r.segment + length r.payload + 11)

-- The reader gets back the payload, in router mode with the segment and the write flag, and an id of 32 bits;
-- it leaves what follows the frame.
abbrev pub IsReadBack : Mode → Request → Bytes → Type 0
IsReadBack standalone r frame =
    (id : ℕ) × IsU32 id
    × ((rest : Bytes) → read_shard (frame ++ rest) ≡ some (shard id r.payload rest))
IsReadBack router r frame =
    (id : ℕ) × IsU32 id
    × ((rest : Bytes)
        → read_router (frame ++ rest)
          ≡ some (
            record { segment = r.segment; is_write = r.is_write; clrid = id; payload = r.payload },
            rest,
          ))

abbrev pub IsReadBackEvent : Request → Event → Type 0
IsReadBackEvent r (sent conn frame) = IsReadBack r.mode r frame
IsReadBackEvent r (slept millis) = Unit

frame_of-IsReadBack :
    (mode : Mode) (r : Request) (id : ℕ)
    → FrameFits mode r
    → IsU32 id
    → IsReadBack mode r (frame_of mode r id)
frame_of-IsReadBack standalone r id fits h =
    (id, h, λ rest. read_shard-prepend_header id r.payload rest h fits)
frame_of-IsReadBack router r id fits h = (
  id,
  h,
  λ rest. read_router-prepend_router_header r.segment r.is_write id r.payload h rest fits.0 fits.1,
)

module _ (r : Request) (fits : FrameFits r.mode r) where
  -- All frames of the log are read back, and the next id of each connection has 32 bits.
  abbrev pub IsReadable : Client → Type 0
  IsReadable c = All (IsReadBackEvent r) c.log × ((conn : ℕ) → IsU32 (c.corr_ids conn))

  note-IsReadable : (c : Client) (n : ℕ) → IsReadable c → IsReadable (note c (slept n))
  note-IsReadable c n h = (All-append _ c.log (slept n ∷ []) h.0 (tt, tt), h.1)

  update-IsU32 :
      (ids : ℕ → ℕ) (conn id : ℕ)
      → ((j : ℕ) → IsU32 (ids j))
      → IsU32 id
      → (j : ℕ) → IsU32 (update ids conn id j)
  update-IsU32 ids conn id h k j = elim (Bool-cases (j == conn)) [
    | inl e ↦ rw e k
    | inr e ↦ rw e (h j)
  ]

  send-IsReadable : (t : Turn) (conn : ℕ) (c : Client) → IsReadable c → IsReadable (send r t conn c)
  unfolding send
  send-IsReadable t conn c h = (
    All-append _ c.log (sent conn (frame_of r.mode r (c.corr_ids conn)) ∷ []) h.0
        (frame_of-IsReadBack r.mode r (c.corr_ids conn) fits (h.1 conn), tt),
    update-IsU32 c.corr_ids conn ((c.corr_ids conn + 1) % 2 ^ 32) h.1 (omega arith),
  )

  abbrev IsReadableResult : Outcome × Client → Type 0
  IsReadableResult (_, last) = IsReadable last

  -- What the rest of the loop keeps.
  abbrev Keeps : (ℕ → Client → Flow (Outcome × Client)) → Type 0
  Keeps again =
      (attempts : ℕ) (c : Client) → IsReadable c → Only IsReadableResult (again attempts c)

  retry-IsReadable :
      (attempts : ℕ) (last : Client) (error : Result Bytes) (c : Client)
      (again : ℕ → Client → Flow (Outcome × Client))
      → Keeps again
      → IsReadable last
      → IsReadable c
      → Only IsReadableResult (retry attempts (last, error) c again)
  unfolding retry
  retry-IsReadable attempts last error c again keeps hl hc =
      Only-if _ (leb 3 (suc attempts)) _ _ (has _ hl)
        (keeps (suc attempts) _ (note-IsReadable c (50 * (suc attempts + 1)) hc))

  answered-IsReadable :
      (attempts : ℕ) (c : Client) (response : Option Bytes)
      (again : ℕ → Client → Flow (Outcome × Client))
      → Keeps again
      → IsReadable c
      → Only IsReadableResult (answered attempts c response again)
  unfolding answered
  answered-IsReadable attempts c none again keeps h =
      retry-IsReadable attempts _ _ c again keeps h h
  answered-IsReadable attempts c (some response) again keeps h = has _ h

  attempt-IsReadable :
      (t : Turn) (attempts : ℕ) (c : Client) (found : Option ℕ)
      (again : ℕ → Client → Flow (Outcome × Client))
      → Keeps again
      → IsReadable c
      → Only IsReadableResult (attempt r t attempts c found again)
  unfolding attempt
  attempt-IsReadable t attempts c none again keeps h =
      retry-IsReadable attempts c _ c again keeps h h
  attempt-IsReadable t attempts c (some conn) again keeps h =
      answered-IsReadable attempts (send r t conn c) t.answer again keeps
        (send-IsReadable t conn c h)

  run-IsReadable : (turns : List Turn) → Keeps (run r turns)
  unfolding run
  run-IsReadable [] attempts c h = has _ h
  run-IsReadable (t ∷ ts) attempts c h =
      Only-bind _ (next_connection t.closed t.slots c.next_conn) _ λ (found, after).
        attempt-IsReadable t attempts (record c { next_conn = after }) (still_open t found)
          (run r ts) (run-IsReadable ts) h

  execute-Only :
      (turns : List Turn) (c : Client) → IsReadable c → Only IsReadableResult (execute r turns c)
  unfolding execute
  execute-Only turns c h =
      Only-if _ (length r.payload == 0) _ _ (has _ h) (run-IsReadable turns 0 c h)

  -- Whatever the turns are, and however often `execute` sends: each frame that it has sent is read back by its
  -- reader as the payload, and in router mode with the request's segment and write flag, under an id of 32
  -- bits; the bytes behind the frame are left. The lengths fit, and the log and the ids were so before.
  pub execute-IsReadable :
      (turns : List Turn) (c : Client) (outcome : Outcome) (last : Client)
      → IsReadable c
      → execute r turns c ≡ next (outcome, last)
      → IsReadable last
  execute-IsReadable turns c outcome last h e =
      result (execute r turns c) e (execute-Only turns c h)
    where
      result :
          (flow : Flow (Outcome × Client))
          → flow ≡ next (outcome, last)
          → Only IsReadableResult flow
          → IsReadable last
      result (next _) e (has (o, l) h) = let same : l ≡ last = cc in rw (← same) h
      result invalid e early_only = cc
      result panic e panic_only = cc
      result stuck e stuck_only = cc
