-- ===== src/EndToEnd.antt =====
-- The processors of src/processor on the handler's own `execute`, as src/server.rs puts them together.
mod Examples
use rzgate.Prelude.{
  ℕ, ◌≤◌, ◌<◌, ◌≡◌, refl, ap, ◌∙◌, ◌⊎◌, inl, inr, Bool, Bool-cases, Option, some, List, [], ◌∷◌,
  length, All, arith, ◌==◌,
}
use rzgate.Bytes.{Bytes, codes}
use rzgate.Flow.{next}
use rzgate.RzError.{
  RzError, Result, ok, err, timeout, roomzin_unreachable, validation, internal, network,
}
use rzgate.Metrics.{Metrics, inc_backend_timeouts}
use rzgate.Http.{Response}
use rzgate.Config.{Mode}
use rzgate.Handler.Demux.{DemuxMap}
use rzgate.Handler.Execute.{Request, Turn, Client, done, execute}
use rzgate.Handler.Execute.Attempts.{Sized, Verdict, execute_ends}
use rzgate.Processor.Perform.{Backend}
use rzgate.Processor.Base.{Services, process}
use rzgate.Processor.Base.Answers.{CountsTimeouts}
use rzgate.Processor.Base.Accounts.{Tallied, process-Tallied}

-- What a call of `execute` meets when it starts: the shared state of the handler and of its
-- connections, and what the other tasks do during its attempts.
pub record Moment : Type 0 where
  pub next_conn : ℕ
  pub corr_ids : ℕ → ℕ
  pub demux : ℕ → DemuxMap
  pub turns : List Turn

-- The handler's fixed parts, and the moment at which each call comes.
pub record Site : Type 0 where
  pub mode : Mode
  pub target_addr : Bytes
  pub pool_size : ℕ
  pub moment : Bytes → Bool → Bytes → Metrics → Moment

module _ (site : Site) where
  abbrev pub call_of : Bytes → Bool → Bytes → Request
  call_of segment is_write buf = record {
    mode = site.mode;
    target_addr = site.target_addr;
    segment = segment;
    is_write = is_write;
    payload = buf;
  }

  abbrev pub client_of : Moment → Metrics → Client
  client_of now m = record {
    next_conn = now.next_conn;
    corr_ids = now.corr_ids;
    demux = now.demux;
    metrics = m;
    log = [];
  }

  -- At each moment there are three turns to go, the pool has its size, and the next index is inside it.
  abbrev pub IsReady : Type 0
  IsReady =
      (segment : Bytes) (is_write : Bool) (buf : Bytes) (m : Metrics)
      → let now = site.moment segment is_write buf m in
        (3 ≤ length now.turns)
        × All (Sized (call_of segment is_write buf) site.pool_size) now.turns
        × (now.next_conn < site.pool_size)

  -- The result and the metrics are those that `execute` ends with.
  abbrev pub EndsWith : Bytes → Bool → Bytes → Metrics → Result Bytes × Metrics → Type 0
  EndsWith segment is_write buf m (answer, after) =
      let now = site.moment segment is_write buf m in
      (last : Client) × (execute (call_of segment is_write buf) now.turns (client_of now m)
        ≡ next (done answer, last))
      × (last.metrics ≡ after)

  -- The handler of the processors is `execute` on this site.
  abbrev pub IsExecuted : Backend → Type 0
  IsExecuted handler =
      (segment : Bytes) (is_write : Bool) (buf : Bytes) (m : Metrics)
      → EndsWith segment is_write buf m (handler segment is_write buf m)

  Verdict-counts :
      (r : Request) (ts : List Turn) (m after : Metrics) (answer : Result Bytes)
      → Verdict r ts m answer after
      → (after ≡ m) ⊎ (after ≡ inc_backend_timeouts m)
  Verdict-counts r ts m after (ok b) v = inl v.1
  Verdict-counts r ts m after (err timeout) v = inr v
  Verdict-counts r ts m after (err (roomzin_unreachable a)) v = inl v.1
  Verdict-counts r ts m after (err (validation a)) v = elim v [ ]
  Verdict-counts r ts m after (err (internal a)) v = elim v [ ]
  Verdict-counts r ts m after (err (network a)) v = elim v [ ]

  -- What a call ends with, and what it has counted.
  abbrev Ended : Bytes → Bool → Bytes → Metrics → Type 0
  Ended segment is_write buf m =
      (result : Result Bytes × Metrics) × EndsWith segment is_write buf m result
      × ((result.1 ≡ m) ⊎ (result.1 ≡ inc_backend_timeouts m))

  call-Ended :
      IsReady
      → (segment : Bytes) (is_write : Bool) (buf : Bytes) (m : Metrics)
      → Ended segment is_write buf m
  unfolding execute
  call-Ended ready segment is_write [] m = (
    (err (validation (codes "empty payload")), m),
    (client_of (site.moment segment is_write [] m) m, refl, refl),
    inl refl,
  )
  call-Ended ready segment is_write (b ∷ bs) m =
      let now = site.moment segment is_write (b ∷ bs) m in
      let (enough, sized, inside) = ready segment is_write (b ∷ bs) m in
      let (answer, last, e, _, _, _, v) =
        execute_ends (call_of segment is_write (b ∷ bs)) site.pool_size now.turns (client_of now m)
          (λ e. cc) enough sized inside in
      (
        (answer, last.metrics),
        (last, e, refl),
        Verdict-counts (call_of segment is_write (b ∷ bs)) now.turns m last.metrics answer v,
      )

  -- `execute` answers every call of the processors, so that it is a handler for them; and with it, `process`
  -- answers every body, never panics, and counts what a request counts. The site is ready.
  pub process-IsExecuted :
      (services : Services) (ready : IsReady)
      → (handler : Backend) × IsExecuted handler
        × ((body : Bytes) (m : Metrics)
            → (answer : Response × Metrics) × (process
                  (record services { handler = handler })
                  body
                  m
                ≡ some answer)
              × Tallied body m answer)
  process-IsExecuted services ready =
      let handler : Backend =
        λ segment is_write buf m. (call-Ended ready segment is_write buf m).0 in
      (
        handler,
        λ segment is_write buf m. (call-Ended ready segment is_write buf m).1,
        λ body m.
            process-Tallied (record services { handler = handler }) body m
              (λ segment is_write buf n. (call-Ended ready segment is_write buf n).2),
      )
