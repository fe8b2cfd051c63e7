-- ===== src/Api.antt =====
-- internal/api/handler.go: the handlers of `RentalHandler`, over the executor of Rental.antt. A
-- request carries what encoding/json made of its body, `none` where it refused it; a response is the
-- status and the value that is encoded.
pub mod Status
pub mod Lifecycle
pub mod Stop
pub mod Keeps
use worldland_sdk.Base.{
  ℕ, ◌*◌, String, Bool, true, false, not, Option, none, some, if◌then◌else◌, ◌==◌, String-eq, ℕ-eq,
}
use worldland_sdk.Go.Errors.{
  GoError, session_already_active, session_not_found, container_not_healthy, errors_is, error_text,
  Result, ok, err,
}
use worldland_sdk.Go.Context.{Context}
use worldland_sdk.Rental.{
  RentalExecutor, RentalState, ConnectionInfo, StartRentalRequest, start_rental, stop_rental,
  get_rental_status,
}
use worldland_sdk.Rental.Interfaces.{DockerService, PortPool}

pub record StartBody : Type 0 where
  pub session_id : String
  pub gpu_device_id : String
  pub image : String
  pub ssh_password : String
  pub memory_bytes : ℕ
  pub cpu_count : ℕ

pub record StartRentalResponse : Type 0 where
  pub session_id : String
  pub ssh_host : String
  pub ssh_port : ℕ
  pub ssh_user : String
  pub ssh_command : String

pub record StopRentalResponse : Type 0 where
  pub session_id : String
  pub message : String

pub record ErrorResponse : Type 0 where
  pub error : String
  pub code : String

pub data Body : Type 0 where
  started : StartRentalResponse → Body
  stopped : StopRentalResponse → Body
  rental : RentalState → Body
  failure : ErrorResponse → Body

pub record Response : Type 0 where
  pub status : ℕ
  pub body : Body

pub record Request (B : Type 0) : Type 0 where
  pub method : String
  pub context : Context
  pub body : B

pub record RentalHandler (W P : Type 0) : Type 0 where
  pub executor : RentalExecutor W P
  pub host_addr : String

unfoldable pub new_rental_handler : {W P : Type 0} → RentalExecutor W P → String → RentalHandler W P
new_rental_handler executor host_addr = record { executor = executor; host_addr = host_addr }

abbrev pub write_json : ℕ → Body → Response
write_json status body = record { status = status; body = body }

abbrev pub write_error : ℕ → String → String → Response
write_error status message code =
    write_json status (failure (record { error = message; code = code }))

abbrev or_zero : ℕ → ℕ → ℕ
or_zero default given = if given == 0 then default else given

-- The request to the executor, with its defaults.
unfoldable pub rental_request : String → StartBody → StartRentalRequest
rental_request host req = record {
  session_id = req.session_id;
  image = if req.image == "" then "nvidia/cuda:12.1.1-runtime-ubuntu22.04" else req.image;
  gpu_device_id = req.gpu_device_id;
  ssh_password = req.ssh_password;
  memory_bytes = or_zero (16 * 1024 * 1024 * 1024) req.memory_bytes;
  cpu_count = or_zero 8 req.cpu_count;
  host = host;
}

abbrev pub start_error : GoError → Response
start_error e =
    if errors_is e session_already_active
    then write_error 409 "rental already exists" "RENTAL_EXISTS"
    else if errors_is e container_not_healthy
    then write_error 503 "container failed to start" "CONTAINER_NOT_READY"
    else write_error 500 (error_text e) "INTERNAL_ERROR"

-- The error of a stop or a status request.
abbrev pub lookup_error : GoError → Response
lookup_error e =
    if errors_is e session_not_found
    then write_error 404 "rental not found" "RENTAL_NOT_FOUND"
    else write_error 500 (error_text e) "INTERNAL_ERROR"

abbrev method_not_allowed : Response
method_not_allowed = write_error 405 "method not allowed" "METHOD_NOT_ALLOWED"

abbrev pub status_response : Result RentalState → Response
status_response (err e) = lookup_error e
status_response (ok state) = write_json 200 (rental state)

module _ {W P : Type 0} (docker : DockerService W) (pool : PortPool P) where
  abbrev pub start_response :
      String → Result ConnectionInfo × RentalExecutor W P → Response × RentalExecutor W P
  start_response session_id (err e, re) = (start_error e, re)
  start_response session_id (ok info, re) = (
    write_json 200 (
        started (record {
          session_id = session_id;
          ssh_host = info.host;
          ssh_port = info.port;
          ssh_user = info.user;
          ssh_command = info.command;
        })),
    re,
  )

  abbrev pub start_decoded :
      String → Context → Option StartBody → RentalExecutor W P → Response × RentalExecutor W P
  start_decoded host ctx none re = (write_error 400 "invalid request body" "INVALID_REQUEST", re)
  start_decoded host ctx (some req) re =
      if req.session_id == ""
      then (write_error 400 "sessionId is required" "MISSING_SESSION_ID", re)
      else if req.gpu_device_id == ""
      then (write_error 400 "gpuDeviceId is required" "MISSING_GPU_DEVICE_ID", re)
      else if req.ssh_password == ""
      then (write_error 400 "sshPassword is required" "MISSING_SSH_PASSWORD", re)
      else start_response req.session_id (start_rental docker pool ctx (rental_request host req) re)

  unfoldable pub handle_start_rental :
      String → Request (Option StartBody) → RentalExecutor W P → Response × RentalExecutor W P
  handle_start_rental host r re =
      if not (r.method == "POST")
      then (method_not_allowed, re)
      else start_decoded host r.context r.body re

  abbrev pub stop_response :
      String → Result (Unit {0}) × RentalExecutor W P → Response × RentalExecutor W P
  stop_response session_id (err e, re) = (lookup_error e, re)
  stop_response session_id (ok done, re) = (
    write_json 200 (
        stopped (record {
          session_id = session_id;
          message = "rental stopped, container will be cleaned up after grace period";
        })),
    re,
  )

  abbrev pub stop_decoded :
      Context → Option String → RentalExecutor W P → Response × RentalExecutor W P
  stop_decoded ctx none re = (write_error 400 "invalid request body" "INVALID_REQUEST", re)
  stop_decoded ctx (some session_id) re =
      if session_id == ""
      then (write_error 400 "sessionId is required" "MISSING_SESSION_ID", re)
      else stop_response session_id (stop_rental docker pool ctx session_id re)

  unfoldable pub handle_stop_rental :
      Request (Option String) → RentalExecutor W P → Response × RentalExecutor W P
  handle_stop_rental r re =
      if not (r.method == "POST")
      then (method_not_allowed, re)
      else stop_decoded r.context r.body re

module _ {W P : Type 0} where
  -- The body is the query parameter sessionId, "" where it is missing.
  unfoldable pub handle_get_status : Request String → RentalExecutor W P → Response
  handle_get_status r re =
      if not (r.method == "GET")
      then method_not_allowed
      else if r.body == ""
      then write_error 400 "sessionId query param required" "MISSING_SESSION_ID"
      else status_response (get_rental_status r.body re)
