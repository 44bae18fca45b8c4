-- ===== src/Protocol/Failure.antt =====
-- src/protocol/mod.rs: the responses that the proxy makes up itself.
use rzgate.Prelude.{◌++◌}
use rzgate.Bytes.{Bytes, codes}
use rzgate.RzError.{RzError, validation, roomzin_unreachable, timeout, internal, network}
use rzgate.Metrics.{Metrics, inc_client_errors}
use rzgate.Http.{Response, json_response, bad_request, internal_server_error}
use rzgate.Protocol.{status_key, error_value, message_key}

unfoldable pub build_error_message : RzError → Bytes
build_error_message (validation msg) = msg
build_error_message (roomzin_unreachable _) =
    codes "Service is temporarily unavailable. Please try again later."
build_error_message (network _) =
    codes "Unable to reach the service. Please check your connection and retry."
build_error_message timeout = codes "The request took too long. Please try again."
build_error_message (internal _) = codes "Something went wrong on our end. Please try again later."

unfoldable pub error_response : Metrics → RzError → Response × Metrics
error_response metrics error =
    let message = build_error_message error in
    let buf =
      codes "{"
      ++ (status_key
          ++ (error_value
              ++ (codes "," ++ (message_key ++ (codes "\"" ++ (message ++ codes "\"}")))))) in
    (json_response bad_request buf, inc_client_errors metrics)

unfoldable pub invalid_response : Response
invalid_response =
    json_response internal_server_error
      (codes "{\"status\":\"error\",\"message\":\"INVALID_RESPONSE_FORMAT\"}")
