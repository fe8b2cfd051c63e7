-- ===== src/Cmd/Routes.antt =====
-- The server of cmd/node/main.go: its routes and its configuration. net/http and encoding/json are
-- parameters: a path without a pattern is answered with status 404, and the texts of requests are
-- decoded outside.
use worldland_sdk.Base.{
  ◌≡◌, refl, ℕ, String, Bool, true, false, Option, if◌then◌else◌, ◌==◌, String-eq,
}
use worldland_sdk.Go.Context.{Context}
use worldland_sdk.Container.{◌<>◌}
use worldland_sdk.Rental.{RentalExecutor}
use worldland_sdk.Rental.Interfaces.{DockerService, PortPool}
use worldland_sdk.Api.{
  Request, StartBody, Response, RentalHandler, handle_start_rental, handle_stop_rental,
  handle_get_status,
}

-- A request: `session_id` is the query parameter sessionId.
pub record HttpRequest : Type 0 where
  pub path : String
  pub method : String
  pub context : Context
  pub body : String
  pub session_id : String

pub data Answer : Type 0 where
  json : Response → Answer
  plain : ℕ → String → Answer

-- The patterns of the mux.
pub data Route : Type 0 where
  start stop status health unknown : Route

unfoldable pub route_of : String → Route
route_of path =
    if path == "/rentals/start"
    then start
    else if path == "/rentals/stop"
    then stop
    else if path == "/rentals/status"
    then status
    else if path == "/health"
    then health
    else unknown

-- http.Server with its tls.Config, as far as `main` sets them.
pub record ServerConfig : Type 0 where
  pub addr : String
  pub require_and_verify_client_cert : Bool
  pub min_version : String

unfoldable pub server_config : String → ServerConfig
server_config api_port = record {
  addr = ":" <> api_port;
  require_and_verify_client_cert = true;
  min_version = "TLS 1.3";
}

abbrev as_request : {B : Type 0} → HttpRequest → B → Request B
as_request r body = record { method = r.method; context = r.context; body = body }

module _ {W P : Type 0} (docker : DockerService W) (pool : PortPool P)
    (decode_start : String → Option StartBody) (decode_stop : String → Option String) where
  abbrev answered : Response × RentalExecutor W P → Answer × RentalExecutor W P
  answered (r, re) = (json r, re)

  abbrev pub serve_route :
      String → HttpRequest → Route → RentalExecutor W P → Answer × RentalExecutor W P
  serve_route host r start re =
      answered (handle_start_rental docker pool host (as_request r (decode_start r.body)) re)
  serve_route host r stop re =
      answered (handle_stop_rental docker pool (as_request r (decode_stop r.body)) re)
  serve_route host r status re = (json (handle_get_status (as_request r r.session_id) re), re)
  serve_route host r health re = (plain 200 "OK", re)
  serve_route host r unknown re = (plain 404 "404 page not found\n", re)

  abbrev with_executor :
      RentalHandler W P → Answer × RentalExecutor W P → Answer × RentalHandler W P
  with_executor h (answer, re) = (answer, record h { executor = re })

  unfoldable pub serve : HttpRequest → RentalHandler W P → Answer × RentalHandler W P
  serve r h = with_executor h (serve_route h.host_addr r (route_of r.path) h.executor)

  not_post-serve_route :
      (host : String) (r : HttpRequest) (route : Route) (re : RentalExecutor W P)
      → r.method == "POST" ≡ false
      → (serve_route host r route re).1 ≡ re
  unfolding handle_start_rental handle_stop_rental
  not_post-serve_route host r start re e = rw e refl
  not_post-serve_route host r stop re e = rw e refl
  not_post-serve_route host r status re e = refl
  not_post-serve_route host r health re e = refl
  not_post-serve_route host r unknown re e = refl

  -- A request with another method than POST leaves the rentals alone, whatever its path is.
  pub not_post-serve :
      (r : HttpRequest) (h : RentalHandler W P)
      → r.method == "POST" ≡ false
      → (serve r h).1.executor ≡ h.executor
  unfolding serve
  not_post-serve r h e = not_post-serve_route h.host_addr r (route_of r.path) h.executor e
