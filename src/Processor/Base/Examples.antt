-- ===== src/Processor/Base/Examples.antt =====
-- The theorems on the dispatch, applied to concrete requests.
use rzgate.Document.{error_document}
use rzgate.Processor.Base.Follows.{Follows}
use rzgate.Prelude.{◌≡◌, refl, some, [], ◌∷◌, equal}
use rzgate.Bytes.{Bytes, codes}
use rzgate.Metrics.{Metrics, new, inc_client_errors}
use rzgate.Http.{Response, json_response, bad_request}
use rzgate.Processor.Samples.{word, object, json_of}
use rzgate.Processor.Base.Samples.{services, one_segment-CountsTimeouts}
use rzgate.Processor.Base.{Services, process}
use rzgate.Processor.Base.Commands.{request_counted, no_segment, process-Refused}
use rzgate.Processor.Base.Accounts.{Tallied, process-Tallied}

abbrev body : Bytes
body = codes "{..}"

-- The same services, with a body that has a command alone.
abbrev no_segments : Services
no_segments = record services { json = json_of ((codes "command", word (codes "PROPEXIST")) ∷ []) }

process-Refused_example :
    process no_segments body new
    ≡ some (
      json_response bad_request (error_document (codes "Missing segment field")),
      inc_client_errors (request_counted no_segments new body),
    )
unfolding equal
process-Refused_example =
    process-Refused no_segments body (codes "Missing segment field") new
      (no_segment object (codes "PROPEXIST") refl refl refl)

process-Tallied_example :
    (answer : Response × Metrics) × (process services body new ≡ some answer)
    × Tallied body new answer
process-Tallied_example = process-Tallied services body new one_segment-CountsTimeouts
