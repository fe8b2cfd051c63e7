-- ===== src/Node.antt =====
-- internal/services/node_daemon.go: `NodeDaemon` and its commands, over the executor of Rental.antt
-- and the mining daemon of Mining.antt. Both parts run on the node's one machine. The two command
-- types are those of internal/adapters/mtls/client.go.
pub mod Acks
pub mod Leak
pub mod Heartbeat
pub mod Hub
pub mod Ends
pub mod Replies
pub mod System
pub mod Keeps
use worldland_sdk.Base.{
  ℕ, ◌*◌, String, Bool, true, false, not, ◌&&◌, ◌||◌, Option, none, some, List, [], ◌∷◌,
  if◌then◌else◌, ◌==◌, String-eq,
}
use worldland_sdk.Go.Errors.{GoError, Result, ok, err, Act, error_text}
use worldland_sdk.Go.Context.{Context, with_timeout, second, minute}
use worldland_sdk.Go.Map.{Map, lookup}
use worldland_sdk.Go.Machine.{Machine, Outside, perform}
use worldland_sdk.Go.Json.{Json, Float64, string, number, as_string, as_int64}
use worldland_sdk.Container.{◌<>◌, mul_int64}
use worldland_sdk.Rental.{
  RentalExecutor, StartRentalRequest, ConnectionInfo, start_rental, stop_rental,
}
use worldland_sdk.Rental.Interfaces.{DockerService, PortPool}
use worldland_sdk.Gpu.Providers.{GpuProvider}
use worldland_sdk.Mining.{MiningDaemon, pause_for_rental, resume_after_rental}

pub record Command (F : Type 0) : Type 0 where
  pub id : String
  pub kind : String
  pub payload : Map String (Json F)

pub record CommandAck (F : Type 0) : Type 0 where
  pub command_id : String
  pub status : String
  pub error : String
  pub payload : Map String (Json F)

-- `is_closed`: stopCh is closed. The client of the hub, whose callback is the daemon, stands in
-- Node/Hub.antt.
pub record NodeDaemon (W P : Type 0) : Type 0 where
  pub machine : Machine W
  pub gpu_provider : GpuProvider W
  pub node_id : String
  pub host_addr : String
  pub metrics_interval : ℕ
  pub is_closed : Bool
  pub rental_executor : Option (RentalExecutor W P)
  pub mining_daemon : Option (MiningDaemon W)

unfoldable pub new_node_daemon :
    {W P : Type 0} → Machine W → GpuProvider W → String → NodeDaemon W P
new_node_daemon machine gpu_provider node_id = record {
  machine = machine;
  gpu_provider = gpu_provider;
  node_id = node_id;
  host_addr = "";
  metrics_interval = 30 * second;
  is_closed = false;
  rental_executor = none;
  mining_daemon = none;
}

unfoldable pub with_rental_executor :
    {W P : Type 0} → RentalExecutor W P → String → NodeDaemon W P → NodeDaemon W P
with_rental_executor executor host_addr d = record d {
  rental_executor = some executor;
  host_addr = host_addr;
}

unfoldable pub with_mining_daemon :
    {W P : Type 0} → MiningDaemon W → NodeDaemon W P → NodeDaemon W P
with_mining_daemon mining d = record d { mining_daemon = some mining }

abbrev pub default_image : String
default_image = "nvidia/cuda:12.1.1-runtime-ubuntu22.04"

abbrev pub or_default : String → String → String
or_default default given = if given == "" then default else given

-- The request that `handleStartRental` makes of a command.
unfoldable pub rental_request : {F : Type 0} → Float64 F → String → Command F → StartRentalRequest
rental_request float host cmd = record {
  session_id = as_string (lookup "session_id" cmd.payload);
  image = or_default default_image (as_string (lookup "image" cmd.payload));
  gpu_device_id = as_string (lookup "gpu_device_id" cmd.payload);
  ssh_password = as_string (lookup "ssh_password" cmd.payload);
  memory_bytes =
      mul_int64 (mul_int64 (as_int64 float 16384 (lookup "memory_mb" cmd.payload)) 1024) 1024;
  cpu_count = as_int64 float 4 (lookup "cpu_count" cmd.payload);
  host = host;
}

abbrev pub error_ack : {F : Type 0} → String → String → CommandAck F
error_ack id message = record { command_id = id; status = "error"; error = message; payload = [] }

-- `dial` is the operating system's answer to net.Dial: the local address of the connection.
module _ {W P F : Type 0} (docker : DockerService W) (pool : PortPool P) (float : Float64 F)
    (dial : Outside W String) where
  abbrev pub outbound_ip : Result String → String
  outbound_ip (ok ip) = ip
  outbound_ip (err e) = "localhost"

  unfoldable pub get_outbound_ip : Machine W → String × Machine W
  get_outbound_ip m = let (r, m') = perform dial m in (outbound_ip r, m')

  abbrev pub on_executor :
      {A : Type 0}
      → RentalExecutor W P
      → Act (RentalExecutor W P) A
      → NodeDaemon W P
      → Result A × NodeDaemon W P
  on_executor executor f d =
      let (r, executor') = f (record executor { machine = d.machine }) in
      (r, record d { machine = executor'.machine; rental_executor = some executor' })

  -- A call of the mining daemon whose error is only logged.
  abbrev pub on_mining :
      MiningDaemon W → Act (MiningDaemon W) (Unit {0}) → NodeDaemon W P → NodeDaemon W P
  on_mining mining f d =
      let (r, mining') = f (record mining { machine = d.machine }) in
      record d { machine = mining'.machine; mining_daemon = some mining' }

  -- Pause mining to release GPU for rental
  abbrev pub pause_mining : String → Option (MiningDaemon W) → NodeDaemon W P → NodeDaemon W P
  pause_mining gpu none d = d
  pause_mining gpu (some mining) d =
      if gpu == ""
      then d
      else on_mining mining
          (pause_for_rental docker (with_timeout d.machine.clock (30 * second)) (gpu ∷ [])) d

  -- Resume mining after rental ends
  abbrev pub resume_mining : Option (MiningDaemon W) → NodeDaemon W P → NodeDaemon W P
  resume_mining none d = d
  resume_mining (some mining) d =
      on_mining mining (resume_after_rental docker (with_timeout d.machine.clock (30 * second)) [])
        d

  abbrev pub resolve_host : NodeDaemon W P → String × NodeDaemon W P
  resolve_host d =
      if d.host_addr == "" || d.host_addr == "localhost"
      then (let (ip, m) = get_outbound_ip d.machine in (ip, record d { machine = m }))
      else (d.host_addr, d)

  abbrev pub started_ack : String → String → String → ConnectionInfo → CommandAck F
  started_ack id session_id host info = record {
    command_id = id;
    status = "ok";
    error = "";
    payload =
        ("session_id", string session_id)
        ∷ ("ssh_host", string host)
        ∷ ("ssh_port", number (float.of_int info.port))
        ∷ ("ssh_user", string info.user)
        ∷ ("container_id", string info.container_id)
        ∷ [];
  }

  abbrev pub report_start :
      Command F → Result ConnectionInfo × NodeDaemon W P → CommandAck F × NodeDaemon W P
  report_start cmd (err e, d) = (error_ack cmd.id ("failed to start rental: " <> error_text e), d)
  report_start cmd (ok info, d) =
      let (host, d') = resolve_host d in
      (started_ack cmd.id (as_string (lookup "session_id" cmd.payload)) host info, d')

  abbrev pub start_with :
      Command F → Option (RentalExecutor W P) → NodeDaemon W P → CommandAck F × NodeDaemon W P
  start_with cmd none d = (error_ack cmd.id "rental executor not configured", d)
  start_with cmd (some executor) d =
      let req = rental_request float d.host_addr cmd in
      if req.session_id == ""
      then (error_ack cmd.id "missing session_id", d)
      else (let paused = pause_mining req.gpu_device_id d.mining_daemon d in
          report_start cmd (
            on_executor executor
              (start_rental docker pool (with_timeout paused.machine.clock (10 * minute)) req)
              paused))

  unfoldable pub handle_start_rental : Command F → NodeDaemon W P → CommandAck F × NodeDaemon W P
  handle_start_rental cmd d = start_with cmd d.rental_executor d

  abbrev pub report_stop :
      Command F → Result (Unit {0}) × NodeDaemon W P → CommandAck F × NodeDaemon W P
  report_stop cmd (err e, d) = (
    record {
      command_id = cmd.id;
      status = "ok";
      error = "stop warning: " <> error_text e;
      payload = [];
    },
    d,
  )
  report_stop cmd (ok done, d) = (
    record {
      command_id = cmd.id;
      status = "ok";
      error = "";
      payload = ("session_id", string (as_string (lookup "session_id" cmd.payload))) ∷ [];
    },
    resume_mining d.mining_daemon d,
  )

  abbrev pub stop_with :
      Command F → Option (RentalExecutor W P) → NodeDaemon W P → CommandAck F × NodeDaemon W P
  stop_with cmd none d = (error_ack cmd.id "rental executor not configured", d)
  stop_with cmd (some executor) d =
      let session_id = as_string (lookup "session_id" cmd.payload) in
      if session_id == ""
      then (error_ack cmd.id "missing session_id", d)
      else report_stop cmd (
          on_executor executor
            (stop_rental docker pool (with_timeout d.machine.clock (30 * second)) session_id) d)

  unfoldable pub handle_stop_rental : Command F → NodeDaemon W P → CommandAck F × NodeDaemon W P
  handle_stop_rental cmd d = stop_with cmd d.rental_executor d

  unfoldable pub handle_command : Command F → NodeDaemon W P → CommandAck F × NodeDaemon W P
  handle_command cmd d =
      if cmd.kind == "start_rental"
      then handle_start_rental cmd d
      else if cmd.kind == "stop_rental"
      then handle_stop_rental cmd d
      else if cmd.kind == "start_job"
      then handle_start_rental cmd d
      else if cmd.kind == "stop_job"
      then handle_stop_rental cmd d
      else (error_ack cmd.id "unknown command", d)
