-- ===== src/Http.antt =====
-- The parts of an HTTP response that the proxy decides: axum's `(StatusCode, headers, body)` with
-- `Content-Type: application/json`, the only header that the code sets.
use rzgate.Prelude.{ℕ}
use rzgate.Bytes.{Bytes}

pub record Response : Type 0 where
  pub status : ℕ
  pub body : Bytes

abbrev pub status_ok : ℕ
status_ok = 200

abbrev pub bad_request : ℕ
bad_request = 400

abbrev pub not_found : ℕ
not_found = 404

abbrev pub internal_server_error : ℕ
internal_server_error = 500

abbrev pub service_unavailable : ℕ
service_unavailable = 503

abbrev pub gateway_timeout : ℕ
gateway_timeout = 504

-- `(status, [(CONTENT_TYPE, "application/json")], body).into_response()`
abbrev pub json_response : ℕ → Bytes → Response
json_response status body = record { status = status; body = body }
