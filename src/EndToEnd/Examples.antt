-- ===== src/EndToEnd/Examples.antt =====
-- The composition, on a pool of two connections, one of them closed.
use rzgate.Prelude.{◌≡◌, ◌==◌, Option, none, some, [], ◌∷◌, ◌++◌, arith}
use rzgate.Bytes.{Bytes, codes}
use rzgate.Metrics.{Metrics}
use rzgate.Http.{Response}
use rzgate.Config.{router}
use rzgate.Handler.Execute.{Turn}
use rzgate.Processor.Perform.{Backend}
use rzgate.Processor.Base.Samples.{services}
use rzgate.Processor.Base.{process}
use rzgate.Processor.Base.Accounts.{Tallied}
use rzgate.EndToEnd.{Site, IsReady, IsExecuted, process-IsExecuted}

-- Connection 10 is closed, and nothing else happens but the answer.
abbrev turn : Option Bytes → Turn
turn answer = record {
  slots = some 10 ∷ some 11 ∷ [];
  closed = λ c. c == 10;
  closed_again = λ c. c == 10;
  tx = 5;
  now = 100;
  answer = answer;
}

-- The first attempt is dropped, and the second is answered by SUCCESS with one byte.
abbrev site : Site
site = record {
  mode = router;
  target_addr = codes "10.0.0.1";
  pool_size = 2;
  moment = λ segment is_write buf m. record {
    next_conn = 1;
    corr_ids = λ _. 1;
    demux = λ _. [];
    turns =
        turn none
        ∷ turn (some (7 ∷ codes "SUCCESS" ++ (1 ∷ 0 ∷ 1 ∷ 0 ∷ 2 ∷ 1 ∷ 0 ∷ 0 ∷ 0 ∷ 1 ∷ [])))
        ∷ turn none
        ∷ [];
  };
}

ready : IsReady site
ready segment is_write buf m = omega arith

process-IsExecuted_example :
    (handler : Backend) × IsExecuted site handler
    × ((body : Bytes) (m : Metrics)
        → (answer : Response × Metrics) × (process (record services { handler = handler }) body m
            ≡ some answer)
          × Tallied body m answer)
process-IsExecuted_example = process-IsExecuted site services ready
