-- ===== src/StartUp/Examples.antt =====
-- The theorems on the start, applied to a backend that fails twice before it answers.
use rzgate.Prelude.{refl, true, none, equal, ℕ, ◌≡◌, ◌≤◌, [], ◌∷◌, List, replicate, arith}
use rzgate.Bytes.{codes}
use rzgate.RzError.{Result, ok, err, timeout}
use rzgate.Protocol.{Codecs}
use rzgate.StartUp.{Round, answered, done, get_codecs_with_retry}
use rzgate.Metrics.{new}
use rzgate.Decimal.{decimal}
use rzgate.Http.{Response}
use rzgate.Config.Samples.{cfg}
use rzgate.Server.{get, post, other, HttpRequest}
use rzgate.Processor.Base.{Services}
use rzgate.Processor.Base.Samples.{services, one_segment-CountsTimeouts}
use rzgate.StartUp.Main.{Course, Runs, async_main, async_main-Runs}
use rzgate.StartUp.Retry.{Justifies, get_codecs_with_retry_lem}

abbrev rounds : List Round
rounds =
    answered (err timeout)
    ∷ answered (err timeout)
    ∷ answered (ok (record { rate_features = codes "wifi" ∷ [] }))
    ∷ replicate 57 (answered (err timeout))

start_example :
    (answer : Result Codecs) × (seconds : ℕ) × (get_codecs_with_retry rounds ≡ done answer seconds)
    × (seconds ≤ 300)
    × Justifies 60 rounds answer
start_example = get_codecs_with_retry_lem rounds (omega arith)

-- One request of each route, and one that no route takes.
abbrev course : Course
course = record {
  rounds = rounds;
  metrics = new;
  requests =
      record { method = post; path = codes "/api"; body = codes "{..}" }
      ∷ record { method = get; path = codes "/health"; body = [] }
      ∷ record { method = get; path = codes "/metrics"; body = [] }
      ∷ record { method = other; path = codes "/api"; body = [] }
      ∷ [];
  is_address = λ text. equal text (codes "0.0.0.0:8080");
  ends_well = true;
}

abbrev not_set : Services
not_set = record services { cell = none }

abbrev fallback : HttpRequest → Response
fallback request = record { status = 404; body = [] }

async_main-Runs_example :
    Runs not_set
      (λ m. codes "metrics")
      fallback
      cfg
      course
      (async_main not_set (λ m. codes "metrics") fallback cfg course)
unfolding equal decimal
async_main-Runs_example =
    async_main-Runs not_set (λ m. codes "metrics") fallback cfg course (omega arith)
      one_segment-CountsTimeouts refl refl refl
