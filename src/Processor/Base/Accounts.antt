-- ===== src/Processor/Base/Accounts.antt =====
-- What a request adds to the counters, whatever its body and the backend's response are.
use rzgate.Prelude.{◌+◌, ◌≤◌, ◌≡◌, refl, ◌⊎◌, inl, inr, length, Option, none, some, Option-cases}
use rzgate.Bytes.{Bytes, codes}
use rzgate.RzError.{validation}
use rzgate.Metrics.{Metrics}
use rzgate.Http.{Response}
use rzgate.Protocol.Response.Accounts.{error_response-Accounted}
use rzgate.Processor.Json.{text}
use rzgate.Processor.Base.{Services, refuse_request, dispatch, body_of, process}
use rzgate.Processor.Base.Table.{routed_by, writes}
use rzgate.Processor.Base.Commands.{
  build_of, decoder_of, request_counted, dispatch-name_of, dispatch-IsUnknown, process-dispatch,
  process-refuse_request, not_json, no_command, no_segment,
}
use rzgate.Processor.Base.Decoders.{decoder_of-IsDecoder}
use rzgate.Processor.Base.Answers.{
  CountsTimeouts, answered, Answers, Accounted-Handled, perform-Answers,
}
use rzgate.Processor.Base.Recognize.{recognize}

refuse-Answers : (m : Metrics) (msg : Bytes) → Answers m (refuse_request m msg)
refuse-Answers m msg =
    answered _ (Accounted-Handled m _ (error_response-Accounted m (validation msg)))

-- The counters behind the answer to a request with this body.
pub record Tallied (body : Bytes) (m : Metrics) (answer : Response × Metrics) : Type 0 where
  pub one_command : answer.1.commands ≡ m.commands + 1
  pub received : answer.1.bytes_received ≡ m.bytes_received + length body
  pub same_connections : answer.1.backend_connections ≡ m.backend_connections
  pub timeouts :
      (answer.1.backend_timeouts ≡ m.backend_timeouts)
      ⊎ (answer.1.backend_timeouts ≡ m.backend_timeouts + 1)
  pub errors :
      (answer.1.client_errors ≡ m.client_errors)
      ⊎ ((answer.1.client_errors ≡ m.client_errors + 1) × (400 ≤ answer.0.status))
  pub sent :
      (answer.1.bytes_sent ≡ m.bytes_sent)
      ⊎ (answer.1.bytes_sent ≡ m.bytes_sent + length answer.0.body)

module _ (services : Services) where
  open services use {json, handler}

  dispatch-Answers :
      (command segment : Bytes) (payload : json.Value) (m : Metrics)
      → CountsTimeouts handler
      → Answers m (dispatch services command segment payload m)
  dispatch-Answers command segment payload m counts = elim (recognize command) [
    | inl (c, named) ↦
        rw (named, dispatch-name_of services c segment payload m)
          (perform-Answers handler (routed_by c segment) (writes c) (build_of services c payload)
            (decoder_of services c) m (decoder_of-IsDecoder services c) counts)
    | inr unknown ↦
        rw (dispatch-IsUnknown services command segment payload m unknown)
          (refuse-Answers m (codes "unsupported command"))
  ]

  process-Answers :
      (body : Bytes) (m : Metrics)
      → CountsTimeouts handler
      → Answers (request_counted services m body) (process services body m)
  process-Answers body m counts = elim (Option-cases (json.from_slice body)) [
    | inl e ↦ rw (process-refuse_request services body _ m (not_json e)) (refuse-Answers _ _)
    | inr (parsed, e) ↦ elim (Option-cases (text json parsed (codes "command"))) [
      | inl e2 ↦
          rw (process-refuse_request services body _ m (no_command parsed e e2))
            (refuse-Answers _ _)
      | inr (command, e2) ↦ elim (Option-cases (text json parsed (codes "segment"))) [
        | inl e3 ↦
            rw (process-refuse_request services body _ m (no_segment parsed command e e2 e3))
              (refuse-Answers _ _)
        | inr (segment, e3) ↦
            rw
              (process-dispatch services body command segment parsed m
                (record { parsed = e; named = e2; placed = e3 }))
              (dispatch-Answers command segment (body_of services parsed)
                (request_counted services m body) counts)
      ]
    ]
  ]

  -- For every body, and a handler that counts a timeout or nothing, `process` answers and never panics. It has
  -- counted one command and the bytes of the body; at most one backend timeout; at most one client error, and
  -- that only with a status of 400 or more; and of the bytes sent either none or exactly the answer's. The
  -- gauge of the backend's connections is as before.
  pub process-Tallied :
      (body : Bytes) (m : Metrics)
      → CountsTimeouts handler
      → (answer : Response × Metrics) × (process services body m ≡ some answer)
        × Tallied body m answer
  process-Tallied body m counts = tally (process services body m) (process-Answers body m counts)
    where
      tally :
          (o : Option (Response × Metrics))
          → Answers (request_counted services m body) o
          → (answer : Response × Metrics) × (o ≡ some answer) × Tallied body m answer
      tally none none_left = elim none_left [ ]
      tally (some given) (answered _ h) = (
        given,
        refl,
        record {
          one_command = h.same_commands;
          received = h.same_received;
          same_connections = h.same_connections;
          timeouts = h.timeouts;
          errors = h.errors;
          sent = h.sent;
        },
      )
