-- ===== src/Server/Tally.antt =====
-- What the server has counted after any sequence of requests.
use rzgate.Prelude.{
  ℕ, suc, ◌+◌, ◌≤◌, ◌≡◌, refl, ap, ◌∙◌, Bool, true, Bool-cases, inl, inr, Option, some, List, [],
  ◌∷◌, ◌++◌, length, arith, ◌&&◌, equal, if◌then◌else◌,
}
use rzgate.Bytes.{Bytes, codes}
use rzgate.Decimal.{decimal}
use rzgate.Metrics.{Metrics}
use rzgate.Http.{Response}
use rzgate.Processor.Base.{Services}
use rzgate.Processor.Base.Answers.{CountsTimeouts}
use rzgate.Processor.Base.Accounts.{Tallied, process-Tallied}
use rzgate.Server.{
  HttpRequest, is_api, is_get, health_handler, metrics_handler, serve, serve_all, http_server,
}

-- The requests for `process_request`, and the bytes of their bodies.
abbrev pub api_requests : List HttpRequest → ℕ
api_requests [] = 0
api_requests (r ∷ rs) = (if is_api r then 1 else 0) + api_requests rs

abbrev pub api_bytes : List HttpRequest → ℕ
api_bytes [] = 0
api_bytes (r ∷ rs) = (if is_api r then length r.body else 0) + api_bytes rs

-- What `requests` requests with `bytes` bytes in all add to the counters.
pub record Adds (requests bytes : ℕ) (m after : Metrics) : Type 0 where
  pub commands : after.commands ≡ m.commands + requests
  pub received : after.bytes_received ≡ m.bytes_received + bytes
  pub same_connections : after.backend_connections ≡ m.backend_connections
  pub few_timeouts : after.backend_timeouts ≤ m.backend_timeouts + requests
  pub few_errors : after.client_errors ≤ m.client_errors + requests

Adds-trans :
    (n k n2 k2 : ℕ) (m m2 m3 : Metrics)
    → Adds n k m m2
    → Adds n2 k2 m2 m3
    → Adds (n + n2) (k + k2) m m3
Adds-trans n k n2 k2 m m2 m3 a b = record {
  commands = omega (arith, a.commands, b.commands);
  received = omega (arith, a.received, b.received);
  same_connections = b.same_connections ∙ a.same_connections;
  few_timeouts = omega (arith, a.few_timeouts, b.few_timeouts);
  few_errors = omega (arith, a.few_errors, b.few_errors);
}

Adds-nothing : (m : Metrics) → Adds 0 0 m m
Adds-nothing m = record {
  commands = omega arith;
  received = omega arith;
  same_connections = refl;
  few_timeouts = omega arith;
  few_errors = omega arith;
}

Tallied-Adds :
    (body : Bytes) (m : Metrics) (answer : Response × Metrics)
    → Tallied body m answer
    → Adds 1 (length body) m answer.1
Tallied-Adds body m answer t = record {
  commands = t.one_command;
  received = t.received;
  same_connections = t.same_connections;
  few_timeouts = elim t.timeouts [ inl e ↦ omega (arith, e) | inr e ↦ omega (arith, e) ];
  few_errors = elim t.errors [ inl e ↦ omega (arith, e) | inr e ↦ omega (arith, e.0) ];
}

-- There is a response for each request, and the counters show what came.
abbrev pub Told : List HttpRequest → Metrics → Option (List Response × Metrics) → Type 0
Told requests m result =
    (responses : List Response) × (after : Metrics) × (result ≡ some (responses, after))
    × (length responses ≡ length requests)
    × Adds (api_requests requests) (api_bytes requests) m after

module _ (services : Services) (render : Metrics → Bytes) (fallback : HttpRequest → Response)
    (counts : CountsTimeouts services.handler) where
  abbrev Answered : HttpRequest → Metrics → Type 0
  Answered request m =
      (response : Response) × (after : Metrics) × (serve services render fallback request m
        ≡ some (response, after))
      × Adds (if is_api request then 1 else 0) (if is_api request then length request.body else 0) m
          after

  serve-Answered : (request : HttpRequest) (m : Metrics) → Answered request m
  unfolding serve
  serve-Answered request m = elim (Bool-cases (is_api request)) [
    | inl api ↦
        let (answer, e, t) = process-Tallied services request.body m counts in
        rw (api, e) (answer.0, answer.1, refl, Tallied-Adds request.body m answer t)
    | inr page ↦ elim (Bool-cases (is_get request.method && equal request.path (codes "/health"))) [
      | inl health ↦ rw (page, health) (health_handler, m, refl, Adds-nothing m)
      | inr h ↦ elim (Bool-cases (is_get request.method && equal request.path (codes "/metrics"))) [
        | inl metrics ↦ rw (page, h, metrics) (metrics_handler render m, m, refl, Adds-nothing m)
        | inr k ↦ rw (page, h, k) (fallback request, m, refl, Adds-nothing m)
      ]
    ]
  ]

  serve_all-Told :
      (requests : List HttpRequest) (m : Metrics)
      → Told requests m (serve_all services render fallback requests m)
  unfolding serve_all
  serve_all-Told [] m = ([], m, refl, refl, Adds-nothing m)
  serve_all-Told (request ∷ requests) m =
      let (response, m2, e, a) = serve-Answered request m in
      let (responses, m3, e2, same, b) = serve_all-Told requests m2 in
      rw (serve_all, e, e2)
        (response ∷ responses, m3, refl, ap suc same, Adds-trans _ _ _ _ m m2 m3 a b)

  -- On an address, and when the server ends well, every request that came has a response, and the handlers
  -- never panic: the counter of commands has grown by the number of the POST requests to /api, the
  -- bytes received by the lengths of their bodies, the timeouts and the client errors by their number at
  -- most, and the gauge of the connections is as before.
  pub http_server-Told :
      (is_address : Bytes → Bool) (listening_addr : Bytes) (http_port : ℕ)
      (requests : List HttpRequest) (m : Metrics)
      → is_address (listening_addr ++ (codes ":" ++ decimal http_port)) ≡ true
      → Told requests m
          (http_server services render fallback is_address listening_addr http_port requests true m)
  unfolding http_server
  http_server-Told is_address listening_addr http_port requests m valid =
      rw valid (serve_all-Told requests m)
