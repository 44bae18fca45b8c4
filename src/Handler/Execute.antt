-- ===== src/Handler/Execute.antt =====
-- src/handler/handler.rs: `Handler::execute`, which sends a request and waits for its response, with up
-- to three attempts. What other tasks do is in the turns: one for each attempt.
pub mod Log
pub mod Attempts
pub mod Frames
use rzgate.Prelude.{
  ℕ, zero, suc, ◌+◌, ◌*◌, ◌%◌, ◌^◌, Bool, true, false, not, Option, none, some, List, [], ◌∷◌, ◌++◌,
  length, leb, ◌==◌, if◌then◌else◌,
}
use rzgate.Bytes.{Bytes, codes}
use rzgate.Flow.{Flow, next, panic, stuck, ◌>>=◌}
use rzgate.RzError.{Result, ok, err, validation, roomzin_unreachable, timeout}
use rzgate.Metrics.{Metrics, inc_backend_timeouts}
use rzgate.Config.{Mode, standalone, router}
use rzgate.Protocol.Frame.{prepend_header, prepend_router_header}
use rzgate.Handler.Demux.{DemuxMap, store}
use rzgate.Handler.Pool.{Slots, next_connection}

-- The fixed parts of the handler, and the arguments of the call.
pub record Request : Type 0 where
  pub mode : Mode
  pub target_addr : Bytes
  pub segment : Bytes
  pub is_write : Bool
  pub payload : Bytes

-- What one attempt meets: the pool as the reconnecting task has left it, which connections are closed
-- when `next_connection` looks and when `execute` looks again, the oneshot channel and the time of
-- the attempt, and what the receiver gives: a response, or none if the sender was dropped.
pub record Turn : Type 0 where
  pub slots : Slots
  pub closed : ℕ → Bool
  pub closed_again : ℕ → Bool
  pub tx : ℕ
  pub now : ℕ
  pub answer : Option Bytes

pub data Event : Type 0 where
  sent : (conn : ℕ) (frame : Bytes) → Event
  slept : (millis : ℕ) → Event

-- What the call changes. The log holds its frames and its pauses.
pub record Client : Type 0 where
  pub next_conn : ℕ
  pub corr_ids : ℕ → ℕ
  pub demux : ℕ → DemuxMap
  pub metrics : Metrics
  pub log : List Event

-- `waiting`: the turns are used up, and the call still waits.
pub data Outcome : Type 0 where
  done : Result Bytes → Outcome
  waiting : Outcome

abbrev pub update {ℓ} : {A : Type ℓ} → (ℕ → A) → ℕ → A → ℕ → A
update f k v j = if j == k then v else f j

abbrev pub frame_of : Mode → Request → ℕ → Bytes
frame_of standalone r corr_id = prepend_header corr_id r.payload
frame_of router r corr_id = prepend_router_header r.segment r.is_write corr_id r.payload

abbrev pub note : Client → Event → Client
note c e = record c { log = c.log ++ (e ∷ []) }

-- `attempts += 1; if attempts >= 3 { return Err(error) }; sleep(50 * (attempts + 1))`
unfoldable pub retry :
    ℕ
    → Client × Result Bytes
    → Client
    → (ℕ → Client → Flow (Outcome × Client))
    → Flow (Outcome × Client)
retry attempts (last, error) c again =
    let more = again (suc attempts) (note c (slept (50 * (suc attempts + 1)))) in
    if leb 3 (suc attempts) then next (done error, last) else more

-- The attempt on an open connection, up to the wait.
unfoldable pub send : Request → Turn → ℕ → Client → Client
send r t conn c =
    let corr_id = c.corr_ids conn in
    record c {
      corr_ids = update c.corr_ids conn ((corr_id + 1) % 2 ^ 32);
      demux = update c.demux conn (store (c.demux conn) corr_id t.tx t.now);
      log = c.log ++ (sent conn (frame_of r.mode r corr_id) ∷ []);
    }

-- `Some(c) if !c.is_closed() => c`
abbrev pub still_open : Turn → Option ℕ → Option ℕ
still_open t none = none
still_open t (some c) = if t.closed_again c then none else some c

-- `match resp_rx.await`
pub answered :
    ℕ → Client → Option Bytes → (ℕ → Client → Flow (Outcome × Client)) → Flow (Outcome × Client)
answered attempts c (some response) again = next (done (ok response), c)
answered attempts c none again =
    retry attempts (record c { metrics = inc_backend_timeouts c.metrics }, err timeout) c again

-- One attempt, on the open connection if there is one.
pub attempt :
    Request
    → Turn
    → ℕ
    → Client
    → Option ℕ
    → (ℕ → Client → Flow (Outcome × Client))
    → Flow (Outcome × Client)
attempt r t attempts c none again =
    retry attempts (c, err (roomzin_unreachable r.target_addr)) c again
attempt r t attempts c (some conn) again = answered attempts (send r t conn c) t.answer again

-- The loop. `attempts` have failed so far.
pub run : Request → List Turn → ℕ → Client → Flow (Outcome × Client)
unfolding attempt answered
run r [] attempts c = next (waiting, c)
run r (t ∷ ts) attempts c =
    let again = run r ts in
    next_connection t.closed t.slots c.next_conn >>= λ (found, after).
    attempt r t attempts (record c { next_conn = after }) (still_open t found) again

unfoldable pub execute : Request → List Turn → Client → Flow (Outcome × Client)
execute r turns c =
    if length r.payload == 0
    then next (done (err (validation (codes "empty payload"))), c)
    else run r turns 0 c
