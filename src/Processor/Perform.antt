-- ===== src/Processor/Perform.antt =====
-- How every processor goes on after its checks: an error is answered at once; a request is executed,
-- and its response decoded.
use rzgate.Prelude.{Bool, Option, none, some}
use rzgate.Bytes.{Bytes}
use rzgate.Flow.{Flow, next, invalid, panic, stuck}
use rzgate.RzError.{Result, ok, err}
use rzgate.Metrics.{Metrics}
use rzgate.Http.{Response}
use rzgate.Protocol.Failure.{error_response, invalid_response}

-- `Handler::execute`: the segment, whether it is a write, and the payload. It may count a timeout.
abbrev pub Backend : Type 0
Backend = Bytes → Bool → Bytes → Metrics → Result Bytes × Metrics

abbrev pub Decoder : Type 0
Decoder = Metrics → Bytes → Flow (Response × Metrics)

-- `return invalid_response()` leaves the metrics as they are. `none` is a panic of the decoder.
unfoldable pub settle : Metrics → Flow (Response × Metrics) → Option (Response × Metrics)
settle m (next r) = some r
settle m invalid = some (invalid_response, m)
settle m panic = none
settle m stuck = none

unfoldable pub receive : Decoder → Result Bytes × Metrics → Option (Response × Metrics)
unfolding settle
receive decode (ok field_data, m) = settle m (decode m field_data)
receive decode (err e, m) = some (error_response m e)

unfoldable pub perform :
    Backend → Bytes → Bool → Result Bytes → Decoder → Metrics → Option (Response × Metrics)
unfolding receive
perform backend seg is_write (err e) decode m = some (error_response m e)
perform backend seg is_write (ok buf) decode m = receive decode (backend seg is_write buf m)
