-- ===== src/Server.antt =====
-- src/server.rs: the routes, and the server that runs them. Requests run in parallel, and each only adds to the
-- counters, which are atomic; here they come one after the other. What axum answers to any other
-- method or path (HEAD and the preflight of CORS among them), the text of the metrics, and the result
-- of the server's task are parameters. The requests are those whose body axum has read within its
-- limit. `none` is a panic.
pub mod Tally
use rzgate.Prelude.{
  ℕ, Bool, true, false, ◌&&◌, Option, none, some, List, [], ◌∷◌, ◌++◌, equal, if◌then◌else◌,
}
use rzgate.Bytes.{Bytes, codes}
use rzgate.Decimal.{decimal}
use rzgate.Metrics.{Metrics}
use rzgate.Http.{Response, status_ok}
use rzgate.Processor.Base.{Services, process}

pub data Method : Type 0 where
  get : Method
  post : Method
  other : Method

pub record HttpRequest : Type 0 where
  pub method : Method
  pub path : Bytes
  pub body : Bytes

abbrev pub is_get : Method → Bool
is_get get = true
is_get post = false
is_get other = false

abbrev pub is_post : Method → Bool
is_post get = false
is_post post = true
is_post other = false

-- The request is one for `process_request`.
unfoldable pub is_api : HttpRequest → Bool
is_api request = is_post request.method && equal request.path (codes "/api")

-- `health_handler`, and the closure of the route `/metrics`
abbrev pub health_handler : Response
health_handler = record { status = status_ok; body = codes "OK" }

abbrev pub metrics_handler : (Metrics → Bytes) → Metrics → Response
metrics_handler render m = record { status = status_ok; body = render m }

module _ (services : Services) (render : Metrics → Bytes) (fallback : HttpRequest → Response) where
  -- The router.
  unfoldable pub serve : HttpRequest → Metrics → Option (Response × Metrics)
  serve request m =
      if is_api request
      then process services request.body m
      else if is_get request.method && equal request.path (codes "/health")
      then some (health_handler, m)
      else if is_get request.method && equal request.path (codes "/metrics")
      then some (metrics_handler render m, m)
      else some (fallback request, m)

  unfoldable pub serve_all : List HttpRequest → Metrics → Option (List Response × Metrics)
  serve_all [] m = some ([], m)
  serve_all (request ∷ requests) m = elim (serve request m) [
    | none ↦ none
    | some (response, m2) ↦ elim (serve_all requests m2) [
      | none ↦ none
      | some (responses, m3) ↦ some (response ∷ responses, m3)
    ]
  ]

  -- The server on the requests that come before its shutdown. `parse().expect(..)` panics on a text that is no
  -- socket address, and `unwrap` when the server has failed.
  unfoldable pub http_server :
      (is_address : Bytes → Bool) (listening_addr : Bytes) (http_port : ℕ)
      (requests : List HttpRequest) (ends_well : Bool)
      → Metrics
      → Option (List Response × Metrics)
  http_server is_address listening_addr http_port requests ends_well m =
      if is_address (listening_addr ++ (codes ":" ++ decimal http_port))
      then if ends_well then serve_all requests m else none
      else none
