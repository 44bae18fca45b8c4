-- ===== src/Processor/Base/Answers.antt =====
-- What is counted behind a command's checks: by the handler, by the decoder, and with a refusal.
use rzgate.Prelude.{◌+◌, ◌≤◌, ◌≡◌, ◌⊎◌, inl, inr, Bool, length, Option, some}
use rzgate.Bytes.{Bytes}
use rzgate.RzError.{Result, ok, err}
use rzgate.Metrics.{Metrics, inc_backend_timeouts}
use rzgate.Http.{Response}
use rzgate.Flow.{Flow, next, invalid, panic, stuck}
use rzgate.Flow.Rules.{Returns, Only, has}
use rzgate.Protocol.Failure.{invalid_response}
use rzgate.Protocol.Response.Accounts.{Accounted, uncounted, error_response-Accounted}
use rzgate.Processor.Perform.{Backend, Decoder, perform, receive, settle}
use rzgate.Processor.Base.Decoders.{IsDecoder}

-- `execute` counts a timeout or nothing.
abbrev pub CountsTimeouts : Backend → Type 0
CountsTimeouts handler =
    (segment : Bytes) (is_write : Bool) (buf : Bytes) (m : Metrics)
    → ((handler segment is_write buf m).1 ≡ m)
      ⊎ ((handler segment is_write buf m).1 ≡ inc_backend_timeouts m)

-- The counters behind an answer, without the request's own.
pub record Handled (m : Metrics) (answer : Response × Metrics) : Type 0 where
  pub same_commands : answer.1.commands ≡ m.commands
  pub same_received : answer.1.bytes_received ≡ m.bytes_received
  pub same_connections : answer.1.backend_connections ≡ m.backend_connections
  pub timeouts :
      (answer.1.backend_timeouts ≡ m.backend_timeouts)
      ⊎ (answer.1.backend_timeouts ≡ m.backend_timeouts + 1)
  pub errors :
      (answer.1.client_errors ≡ m.client_errors)
      ⊎ ((answer.1.client_errors ≡ m.client_errors + 1) × (400 ≤ answer.0.status))
  pub sent :
      (answer.1.bytes_sent ≡ m.bytes_sent)
      ⊎ (answer.1.bytes_sent ≡ m.bytes_sent + length answer.0.body)

-- There is an answer, and this is what it has counted.
pub data Answers (m : Metrics) : Option (Response × Metrics) → Type 0 where
  answered : (answer : Response × Metrics) → Handled m answer → Answers m (some answer)

pub Accounted-Handled : (m : Metrics) (a : Response × Metrics) → Accounted m a → Handled m a
Accounted-Handled m a h = record {
  same_commands = h.same_commands;
  same_received = h.same_received;
  same_connections = h.same_connections;
  timeouts = inl h.same_timeouts;
  errors = h.errors;
  sent = h.sent;
}

Accounted-Handled_timeout :
    (m : Metrics) (a : Response × Metrics) → Accounted (inc_backend_timeouts m) a → Handled m a
Accounted-Handled_timeout m a h = record {
  same_commands = h.same_commands;
  same_received = h.same_received;
  same_connections = h.same_connections;
  timeouts = inr h.same_timeouts;
  errors = h.errors;
  sent = h.sent;
}

-- The metrics that the handler leaves.
after_handler :
    (m m2 : Metrics) (a : Response × Metrics)
    → (m2 ≡ m) ⊎ (m2 ≡ inc_backend_timeouts m)
    → Accounted m2 a
    → Handled m a
after_handler m m2 a (inl e) h = Accounted-Handled m a (rw e at h)
after_handler m m2 a (inr e) h = Accounted-Handled_timeout m a (rw e at h)

settle-Answers :
    (m m2 : Metrics) (r : Flow (Response × Metrics))
    → (m2 ≡ m) ⊎ (m2 ≡ inc_backend_timeouts m)
    → Returns r
    → Only (Accounted m2) r
    → Answers m (settle m2 r)
unfolding settle
settle-Answers m m2 (next a) known ends (has _ h) = answered a (after_handler m m2 a known h)
settle-Answers m m2 invalid known ends only =
    answered _ (after_handler m m2 _ known (uncounted m2 invalid_response))
settle-Answers m m2 panic known ends only = elim ends [ ]
settle-Answers m m2 stuck known ends only = elim ends [ ]

receive-Answers :
    (decode : Decoder) (m : Metrics) (r : Result Bytes × Metrics)
    → IsDecoder decode
    → (r.1 ≡ m) ⊎ (r.1 ≡ inc_backend_timeouts m)
    → Answers m (receive decode r)
unfolding receive
receive-Answers decode m (ok bytes, m2) good known =
    settle-Answers m m2 (decode m2 bytes) known (good m2 bytes).0 (good m2 bytes).1
receive-Answers decode m (err e, m2) good known =
    answered _ (after_handler m m2 _ known (error_response-Accounted m2 e))

pub perform-Answers :
    (handler : Backend) (segment : Bytes) (is_write : Bool) (built : Result Bytes)
    (decode : Decoder) (m : Metrics)
    → IsDecoder decode
    → CountsTimeouts handler
    → Answers m (perform handler segment is_write built decode m)
unfolding perform
perform-Answers handler segment is_write (err e) decode m good counts =
    answered _ (Accounted-Handled m _ (error_response-Accounted m e))
perform-Answers handler segment is_write (ok buf) decode m good counts =
    receive-Answers decode m (handler segment is_write buf m) good (counts segment is_write buf m)
