-- ===== src/StartUp/Main.antt =====
-- src/lib.rs: `async_main`, which gets the codecs, sets the cell of src/bitmask.rs and runs the server.
use rzgate.Prelude.{◌≤◌, ◌≡◌, refl, Bool, true, Option, none, some, List, ◌++◌, length}
use rzgate.Bytes.{Bytes, codes}
use rzgate.Decimal.{decimal}
use rzgate.RzError.{RzError, Result, ok, err}
use rzgate.Metrics.{Metrics}
use rzgate.Http.{Response}
use rzgate.Protocol.{Codecs}
use rzgate.Config.{Config}
use rzgate.Bitmask.{Cell, set_codecs}
use rzgate.Processor.Base.{Services}
use rzgate.Processor.Base.Answers.{CountsTimeouts}
use rzgate.Server.{HttpRequest, http_server}
use rzgate.Server.Tally.{Told, http_server-Told}
use rzgate.StartUp.{Round, done, pending, get_codecs_with_retry}
use rzgate.StartUp.Retry.{Justifies, get_codecs_with_retry_lem}

-- What `async_main` meets: the rounds of the start, the metrics when the server starts, the requests before
-- the shutdown, whether a text is a socket address, and whether the server ends well.
pub record Course : Type 0 where
  pub rounds : List Round
  pub metrics : Metrics
  pub requests : List HttpRequest
  pub is_address : Bytes → Bool
  pub ends_well : Bool

-- `Ok(())`, with the responses that were given; an error; a panic; or a wait for a round to come.
pub data Ending : Type 0 where
  served : List Response → Metrics → Ending
  failed : RzError → Ending
  panicked : Ending
  waits : Ending

abbrev pub with_cell : Services → Cell → Services
with_cell services cell = record services { cell = cell }

module _ (services : Services) (render : Metrics → Bytes) (fallback : HttpRequest → Response) where
  -- `server::run`
  abbrev pub run_server : Config → Course → Cell → Option (List Response × Metrics)
  run_server cfg course cell =
      http_server (with_cell services cell) render fallback course.is_address cfg.listening_addr
        cfg.http_port course.requests course.ends_well course.metrics

  abbrev pub ended : Option (List Response × Metrics) → Ending
  ended none = panicked
  ended (some (responses, m)) = served responses m

  -- `set_codecs(codecs)?`, and the server on the cell that it leaves.
  abbrev pub begin_serving : Config → Course → Result (Unit {0}) × Cell → Ending
  begin_serving cfg course (err e, cell) = failed e
  begin_serving cfg course (ok _, cell) = ended (run_server cfg course cell)

  abbrev pub with_codecs : Config → Course → Result Codecs → Ending
  with_codecs cfg course (err e) = failed e
  with_codecs cfg course (ok codecs) = begin_serving cfg course (set_codecs services.cell codecs)

  unfoldable pub async_main : Config → Course → Ending
  async_main cfg course = elim (get_codecs_with_retry course.rounds) [
    | pending ↦ waits
    | done answer seconds ↦ with_codecs cfg course answer
  ]

  -- The program has failed with the error of the start, or it has served every request with the features that the
  -- start has found in the cell.
  pub data Runs (cfg : Config) (course : Course) : Ending → Type 0 where
    not_started : (e : RzError) → Justifies 60 course.rounds (err e) → Runs cfg course (failed e)
    started :
        (codecs : Codecs) (responses : List Response) (after : Metrics)
        → Justifies 60 course.rounds (ok codecs)
        → run_server cfg course (some codecs.rate_features) ≡ some (responses, after)
        → Told course.requests course.metrics (some (responses, after))
        → Runs cfg course (served responses after)

  with_codecs-Runs :
      (cfg : Config) (course : Course) (answer : Result Codecs)
      → CountsTimeouts services.handler
      → services.cell ≡ none
      → course.is_address (cfg.listening_addr ++ (codes ":" ++ decimal cfg.http_port)) ≡ true
      → course.ends_well ≡ true
      → Justifies 60 course.rounds answer
      → Runs cfg course (with_codecs cfg course answer)
  unfolding set_codecs
  with_codecs-Runs cfg course (err e) counts empty valid well h = not_started e h
  with_codecs-Runs cfg course (ok codecs) counts empty valid well h =
      let told =
        http_server-Told (with_cell services (some codecs.rate_features)) render fallback counts
          course.is_address cfg.listening_addr cfg.http_port course.requests course.metrics valid in
      let (responses, after, e, same, adds) = told in
      let ran : run_server cfg course (some codecs.rate_features) ≡ some (responses, after) =
        rw well e in
      rw (empty, ran) (started codecs responses after h ran (responses, after, refl, same, adds))

  -- With sixty rounds to go, on an address, with the cell not set before, a server that ends well, and a
  -- handler that counts a timeout or nothing: `async_main` ends. Either it fails with the start's error, at a
  -- shutdown or after sixty failed rounds; or the features of the first codecs that the backend gave are in the cell
  -- from the first request on, and every request has its response, with the counters of the requests.
  pub async_main-Runs :
      (cfg : Config) (course : Course)
      → 60 ≤ length course.rounds
      → CountsTimeouts services.handler
      → services.cell ≡ none
      → course.is_address (cfg.listening_addr ++ (codes ":" ++ decimal cfg.http_port)) ≡ true
      → course.ends_well ≡ true
      → Runs cfg course (async_main cfg course)
  unfolding async_main
  async_main-Runs cfg course enough counts empty valid well =
      let (answer, seconds, e, _, h) = get_codecs_with_retry_lem course.rounds enough in
      rw (async_main, e) (with_codecs-Runs cfg course answer counts empty valid well h)
