-- ===== src/Protocol/Response/Accounts.antt =====
-- What a decoder adds to the counters, whatever the response is.
use rzgate.Prelude.{
  ℕ, ◌+◌, ◌≤◌, ◌≡◌, refl, ◌⊎◌, inl, inr, ◌==◌, not, length, equal, arith, if◌then◌else◌,
}
use rzgate.Bytes.{Bytes}
use rzgate.RzError.{RzError}
use rzgate.Metrics.{Metrics}
use rzgate.Http.{Response}
use rzgate.Flow.{Flow, ◌>>=◌}
use rzgate.Flow.Rules.{Only, has, early_only, Only-bind, Only-if}
use rzgate.Protocol.Failure.{error_response}
use rzgate.Protocol.Reply.{success, Prologue, read_prologue}
use rzgate.Protocol.Response.{
  handle_non_success_status, sent_ok, decode_simple_response, read_scalar_u8,
  decode_scalar_u8_response, decode_boolean_response,
}
use rzgate.Protocol.Response.Verdicts.{handle_non_success-IsErrorReply}

-- What an answer has counted: at most one client error, and only with an error
-- status; the bytes of the answer's body, or none; nothing else.
pub record Accounted (m : Metrics) (answer : Response × Metrics) : Type 0 where
  pub same_commands : answer.1.commands ≡ m.commands
  pub same_received : answer.1.bytes_received ≡ m.bytes_received
  pub same_timeouts : answer.1.backend_timeouts ≡ m.backend_timeouts
  pub same_connections : answer.1.backend_connections ≡ m.backend_connections
  pub errors :
      (answer.1.client_errors ≡ m.client_errors)
      ⊎ ((answer.1.client_errors ≡ m.client_errors + 1) × (400 ≤ answer.0.status))
  pub sent :
      (answer.1.bytes_sent ≡ m.bytes_sent)
      ⊎ (answer.1.bytes_sent ≡ m.bytes_sent + length answer.0.body)

abbrev pub IsAccounted : (Metrics → Bytes → Flow (Response × Metrics)) → Type 0
IsAccounted decode = (m : Metrics) (bytes : Bytes) → Only (Accounted m) (decode m bytes)

pub uncounted : (m : Metrics) (r : Response) → Accounted m (r, m)
uncounted m r = record {
  same_commands = refl;
  same_received = refl;
  same_timeouts = refl;
  same_connections = refl;
  errors = inl refl;
  sent = inl refl;
}

pub sent_ok-Accounted : (m : Metrics) (body : Bytes) → Accounted m (sent_ok m body)
sent_ok-Accounted m body = record {
  same_commands = refl;
  same_received = refl;
  same_timeouts = refl;
  same_connections = refl;
  errors = inl refl;
  sent = inr refl;
}

pub error_response-Accounted : (m : Metrics) (e : RzError) → Accounted m (error_response m e)
unfolding error_response
error_response-Accounted m e = record {
  same_commands = refl;
  same_received = refl;
  same_timeouts = refl;
  same_connections = refl;
  errors = inr (refl, omega arith);
  sent = inl refl;
}

pub non_success-Accounted :
    (m : Metrics) (bytes status : Bytes) (n offset : ℕ)
    → Only (Accounted m) (handle_non_success_status m bytes status n offset)
non_success-Accounted m bytes status n offset =
    let (msg, e, bad) = handle_non_success-IsErrorReply m bytes status n offset in
    rw e (
      has _ (record {
        same_commands = refl;
        same_received = refl;
        same_timeouts = refl;
        same_connections = refl;
        errors = inr (refl, bad);
        sent = inr refl;
      }))

-- Every decoder begins so.
pub after_prologue :
    (m : Metrics) (bytes : Bytes) (k : Prologue → Flow (Response × Metrics))
    → ((p : Prologue) → Only (Accounted m) (k p))
    → Only (Accounted m) (
        read_prologue bytes >>= λ p.
        if not (equal p.status success)
        then handle_non_success_status m bytes p.status p.field_count p.offset
        else k p)
after_prologue m bytes k h = Only-bind _ (read_prologue bytes) _ λ p.
    Only-if _ (not (equal p.status success)) _ _
      (non_success-Accounted m bytes p.status p.field_count p.offset) (h p)

pub decode_simple_response-IsAccounted : IsAccounted decode_simple_response
unfolding decode_simple_response
decode_simple_response-IsAccounted m bytes =
    after_prologue m bytes _
      λ p. Only-if _ (p.field_count == 0) _ _ (has _ (sent_ok-Accounted m _)) early_only

pub decode_scalar_u8_response-IsAccounted :
    (name : Bytes) → IsAccounted (λ m bytes. decode_scalar_u8_response m bytes name)
unfolding decode_scalar_u8_response
decode_scalar_u8_response-IsAccounted name m bytes =
    after_prologue m bytes _
      λ p. Only-bind _ (read_scalar_u8 bytes p) _ λ _. has _ (sent_ok-Accounted m _)

pub decode_boolean_response-IsAccounted :
    (name : Bytes) → IsAccounted (λ m bytes. decode_boolean_response m bytes name)
unfolding decode_boolean_response
decode_boolean_response-IsAccounted name m bytes =
    after_prologue m bytes _
      λ p. Only-bind _ (read_scalar_u8 bytes p) _ λ _. has _ (sent_ok-Accounted m _)
