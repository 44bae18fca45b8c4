-- ===== src/Processor/Base/Samples.antt =====
-- A backend and the services of the processors, for the examples.
use rzgate.Prelude.{refl, Bool-cases, inl, inr, [], ◌∷◌, ◌++◌, equal, if◌then◌else◌}
use rzgate.Bytes.{codes}
use rzgate.RzError.{ok, err, timeout}
use rzgate.Metrics.{inc_backend_timeouts}
use rzgate.Helper.Samples.{hyphenated, short_months, cell}
use rzgate.Processor.Perform.{Backend}
use rzgate.Processor.Samples.{json}
use rzgate.Processor.Base.{Services}
use rzgate.Processor.Base.Answers.{CountsTimeouts}

-- A backend that knows one segment, and does not answer for any other.
abbrev pub one_segment : Backend
one_segment segment is_write buf m =
    if equal segment (codes "eu")
    then (ok (7 ∷ codes "SUCCESS" ++ (1 ∷ 0 ∷ 1 ∷ 0 ∷ 2 ∷ 1 ∷ 0 ∷ 0 ∷ 0 ∷ 1 ∷ [])), m)
    else (err timeout, inc_backend_timeouts m)

abbrev pub services : Services
services = record {
  json = json;
  cal = short_months;
  current_year = 2026;
  uuid_to_string = hyphenated;
  cell = cell;
  handler = one_segment;
}

pub one_segment-CountsTimeouts : CountsTimeouts one_segment
one_segment-CountsTimeouts segment is_write buf m = elim (Bool-cases (equal segment (codes "eu"))) [
  | inl e ↦ rw e (inl refl)
  | inr e ↦ rw e (inr refl)
]
