-- ===== src/Handler/Examples.antt =====
-- The theorems on the handler, applied to a pool of two connections, one of them closed.
use rzgate.Prelude.{
  ℕ, ◌+◌, ◌-◌, ◌%◌, ◌^◌, ◌≡◌, ◌≢◌, ◌⊎◌, ◌≤◌, ◌<◌, refl, Bool, true, ◌==◌, Option, none, some, List,
  [], ◌∷◌, arith,
}
use rzgate.Bytes.{Bytes, codes}
use rzgate.Flow.{next}
use rzgate.RzError.{Result}
use rzgate.Metrics.{new}
use rzgate.Config.{standalone}
use rzgate.Handler.Demux.{DemuxMap, lookup, store, remove, load_remove, cleanup}
use rzgate.Handler.Demux.Laws.{IsMap, notices, unless_old, cleanup_lem}
use rzgate.Handler.Connection.{
  hand_out, Connection, connected, request, read_frame, Steps, stay, then_step, requested, drained,
}
use rzgate.Handler.Connection.Kept.{IsDelivered, IsWaiting, Steps-IsKept}
use rzgate.Handler.Connection.Ids.{Steps-id_of}
use rzgate.Handler.Connection.Matching.{IsMatched, IsOnce, Steps-IsMatched}
use rzgate.Handler.Pool.{Slots}
use rzgate.Handler.Execute.{Request, Turn, Client, done, execute}
use rzgate.Handler.Execute.Frames.{IsReadable, execute-IsReadable}
use rzgate.Handler.Execute.Log.{sends, pauses}
use rzgate.Handler.Execute.Attempts.{Verdict, execute_ends}

abbrev slots : Slots
slots = some 10 ∷ none ∷ some 11 ∷ []

-- Connection 10 is closed.
abbrev closed : ℕ → Bool
closed c = c == 10

-- Two requests, and the response to the second one first.
abbrev two_sent : Connection
two_sent = request (λ id. id ∷ []) 20 (request (λ id. id ∷ []) 10 connected)

abbrev second_answered : Connection
second_answered = read_frame 2 (codes "b") two_sent

two_requests : Steps connected two_sent
two_requests =
    then_step (request (λ id. id ∷ []) 10 connected) _
      (then_step connected _ stay (requested (λ id. id ∷ []) 10)) (requested (λ id. id ∷ []) 20)

busy : Steps connected second_answered
unfolding request
busy = then_step two_sent _ two_requests (drained 2 (codes "b") refl)

matching_example :
    IsMatched second_answered.issued second_answered.delivered × IsOnce second_answered.delivered
matching_example = Steps-IsMatched second_answered busy

Steps-id_of_example : (1 ≡ (0 + 1) % 2 ^ 32) × (1 < 2 ^ 32) × ◌≢◌ {A = ℕ} 1 2
unfolding request
Steps-id_of_example =
    Steps-id_of two_sent 0 1 1 2 two_requests refl refl (omega arith) (omega arith)

-- The first request still waits.
Steps-IsKept_example : IsDelivered 0 second_answered.delivered ⊎ IsWaiting 0 second_answered.demux
unfolding request read_frame hand_out load_remove lookup store remove
Steps-IsKept_example = Steps-IsKept second_answered 0 busy (omega arith) (omega arith)

abbrev call : Request
call = record {
  mode = standalone;
  target_addr = codes "10.0.0.1:7777";
  segment = codes "eu";
  is_write = true;
  payload = codes "x";
}

abbrev turn : Option Bytes → Turn
turn answer = record {
  slots = slots;
  closed = closed;
  closed_again = closed;
  tx = 5;
  now = 100;
  answer = answer;
}

-- The first two attempts are dropped, and the third is answered.
abbrev turns : List Turn
turns = turn none ∷ turn none ∷ turn (some (codes "ok")) ∷ []

abbrev client : Client
client = record { next_conn = 0; corr_ids = λ _. 1; demux = λ _. []; metrics = new; log = [] }

execute_example :
    (answer : Result Bytes) × (last : Client) × (execute call turns client
      ≡ next (done answer, last))
    × (last.next_conn < 3)
    × (sends last.log ≤ sends client.log + 3)
    × (pauses last.log ≤ pauses client.log + 250)
    × Verdict call turns client.metrics answer last.metrics
execute_example =
    execute_ends call 3 turns client (λ e. cc) (omega arith) (refl, (refl, (refl, tt)))
      (omega arith)

-- The run of `execute_example`.
three_attempts :
    (answer : Result Bytes) × (last : Client) × (execute call turns client
      ≡ next (done answer, last))
    × (last.next_conn < 3)
    × (sends last.log ≤ sends client.log + 3)
    × (pauses last.log ≤ pauses client.log + 250)
    × Verdict call turns client.metrics answer last.metrics
three_attempts =
    execute_ends call 3 turns client (λ e. cc) (omega arith) (refl, (refl, (refl, tt)))
      (omega arith)

execute-IsReadable_example : IsReadable call (omega arith) three_attempts.1
execute-IsReadable_example =
    execute-IsReadable call (omega arith) turns client (done three_attempts.0) three_attempts.1
      (tt, λ conn. omega arith) three_attempts.2

abbrev waiting_map : DemuxMap
waiting_map = (1, record { tx = 5; sent_at = 10 }) ∷ (2, record { tx = 6; sent_at = 90 }) ∷ []

cleanup_example :
    (m' : DemuxMap) × (cleanup waiting_map 30 100 ≡ next (m', notices (100 - 30) waiting_map))
    × IsMap m'
    × ((j : ℕ) → lookup j m' ≡ unless_old (100 - 30) (lookup j waiting_map))
unfolding lookup
cleanup_example = cleanup_lem waiting_map 30 100 (refl, (refl, tt)) (omega arith)
