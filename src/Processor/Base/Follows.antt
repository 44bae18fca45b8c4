-- ===== src/Processor/Base/Follows.antt =====
-- How a request with a command and a segment is answered, step by step.
use rzgate.Prelude.{◌≡◌, Option, none, some}
use rzgate.Bytes.{Bytes, codes}
use rzgate.RzError.{RzError, ok, err}
use rzgate.Metrics.{Metrics, inc_client_errors}
use rzgate.Http.{Response, json_response, bad_request, internal_server_error}
use rzgate.Flow.{Flow, next, invalid}
use rzgate.Document.{error_document}
use rzgate.Document.Answers.{own_error}
use rzgate.Processor.Base.{Services}
use rzgate.Processor.Base.Table.{Command, writes, routed_by}
use rzgate.Processor.Base.Commands.{build_of, decoder_of}

module _ (services : Services) where
  open services use {json, handler}

  -- What the body holds under the key `body`: its value, or null without the key.
  pub data Carries (value : json.Value) : json.Value → Type 0 where
    under_body :
        (payload : json.Value)
        → json.get value (codes "body") ≡ some payload
        → Carries value payload
    without_body : json.get value (codes "body") ≡ none → Carries value json.null

  -- The steps for a command: its builder refuses the payload; or the handler, asked once, has an error;
  -- or it has a response, which the command's decoder turns into the answer or finds invalid.
  pub data Follows (c : Command) (segment : Bytes) (payload : json.Value) (m : Metrics)
      : Option (Response × Metrics) → Type 0 where
    refused :
        (e : RzError)
        → build_of services c payload ≡ err e
        → Follows c segment payload m
            (some (json_response bad_request (own_error e), inc_client_errors m))
    failed :
        (buf : Bytes) (e : RzError) (m2 : Metrics)
        → build_of services c payload ≡ ok buf
        → handler (routed_by c segment) (writes c) buf m ≡ (err e, m2)
        → Follows c segment payload m
            (some (json_response bad_request (own_error e), inc_client_errors m2))
    decoded :
        (buf bytes : Bytes) (m2 : Metrics) (r : Response × Metrics)
        → build_of services c payload ≡ ok buf
        → handler (routed_by c segment) (writes c) buf m ≡ (ok bytes, m2)
        → decoder_of services c m2 bytes ≡ next r
        → Follows c segment payload m (some r)
    found_invalid :
        (buf bytes : Bytes) (m2 : Metrics)
        → build_of services c payload ≡ ok buf
        → handler (routed_by c segment) (writes c) buf m ≡ (ok bytes, m2)
        → decoder_of services c m2 bytes ≡ invalid
        → Follows c segment payload m (
            some (
              json_response internal_server_error
                  (error_document (codes "INVALID_RESPONSE_FORMAT")),
              m2,
            ))
