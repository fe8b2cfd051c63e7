-- ===== src/Examples/StartupTests.antt =====
-- `main` of cmd/node/main.go on a machine without a GPU, whose certificates are there.
use worldland_sdk.Base.{ℕ, ◌≡◌, refl, String, String-eq, false, Option, none, some}
use worldland_sdk.Go.Errors.{ok}
use worldland_sdk.Go.Outcome.{IfOk}
use worldland_sdk.Go.Context.{background}
use worldland_sdk.Go.Map.{lookup, insert}
use worldland_sdk.Go.Machine.{Machine}
use worldland_sdk.Container.{
  new_docker_service, create_container, ensure_image, start_container, inspect_container,
  container_info,
}
use worldland_sdk.Port.{PortManager, new_port_manager, allocate, scan}
use worldland_sdk.Rental.{RentalExecutor, RentalState, new_rental_executor, start_rental, launch}
use worldland_sdk.Rental.Interfaces.{DockerService}
use worldland_sdk.Rental.Wait.{wait_for_health, poll, verdict}
use worldland_sdk.Rental.Wiring.{docker_service, port_pool, node_executor}
use worldland_sdk.Api.{Request, StartBody, handle_start_rental, rental_request}
use worldland_sdk.Node.Heartbeat.{Encoding}
use worldland_sdk.Node.System.{here, later, serves_start, serve_start, on_rentals}
use worldland_sdk.Gpu.Providers.{stub_provider}
use worldland_sdk.Mtls.{Conn, Network, Phase, entering, connect, new_client}
use worldland_sdk.Cmd.Os.{Os, certs_exist, all_exist}
use worldland_sdk.Cmd.{detect, check_price}
use worldland_sdk.Go.Strconv.{parse_big, read_digits}
use worldland_sdk.Node.{new_node_daemon, with_rental_executor}
use worldland_sdk.Node.Hub.{Linked, connect_to_hub}
use worldland_sdk.Cmd.Flags.{Flags, default_flags, cert_paths, private_key_of, early_detection}
use worldland_sdk.Cmd.Enroll.{enroll}
use worldland_sdk.Cmd.Startup.{
  Platform, Tls, Running, start_up, cpu_provider, wired, identify, choose_provider, prepare_mining,
}
use worldland_sdk.Cmd.Startup.Ready.{Ready, start_up-Ready}
use worldland_sdk.Cmd.Startup.Safe.{RunsTo, start_up-ports_distinct}
use worldland_sdk.Examples.World.{says, machine, client, backoff, float, dial}
use worldland_sdk.Examples.AuthTests.{libraries}
use worldland_sdk.Examples.MtlsTests.{ping}

abbrev os : Os ℕ
os = record {
  user_home_dir = says "/root";
  hostname = says "node";
  missing = λ path m. (false, m);
  read_file = λ path. says "CA";
  mkdir_all = λ path mode. says tt;
  write_file = λ path bytes mode. says tt;
  join = λ dir name. name;
}

abbrev tls : Tls ℕ ℕ ℕ
tls = record {
  load_key_pair = λ cert key. says 5;
  append_certs = λ bytes. some 6;
  common_name = λ certificate. ok "node-1";
}

abbrev pub conn : Conn
conn = record { handle = 7 }

abbrev pub net : Network ℕ ℕ
net = record {
  dial = says conn;
  handshake = λ conn. says tt;
  read = λ conn w. some (says "ping" w);
  write = λ conn bytes. says tt;
  close = λ conn. says tt;
  unmarshal = λ bytes. some ping;
  marshal = λ ack. ack.command_id;
}

abbrev pub platform : Platform ℕ ℕ ℕ ℕ ℕ
platform = record {
  os = os;
  libs = libraries;
  nvml = stub_provider;
  tls = tls;
  docker = says client;
  backoff = backoff;
  float = float;
  dial = dial;
  network = λ address certificate roots. net;
}

abbrev pub flags : Flags
flags = default_flags "certs"

start_up-Ready_example :
    IfOk (λ r m'. Ready platform flags machine r) (start_up platform flags machine)
start_up-Ready_example = start_up-Ready platform flags machine

abbrev wired_at : Machine ℕ
wired_at = record { clock = 1003; world = 0 }

abbrev pub linked_at : Machine ℕ
linked_at = record { clock = 1005; world = 0 }

abbrev pub running : Running ℕ ℕ ℕ
running = record {
  link = record {
    machine = linked_at;
    conn = some conn;
    stop_at = none;
    app = wired platform flags "node-1" cpu_provider none wired_at;
  };
  identity = record { certificate = 5; roots = 6; node_id = "node-1" };
  docker = client;
}

pub starts : (start_up platform flags machine) ≡ (ok running, linked_at)
unfolding start_up enroll private_key_of cert_paths certs_exist all_exist early_detection detect
    stub_provider identify choose_provider prepare_mining connect_to_hub connect new_client
    new_docker_service new_node_daemon check_price parse_big read_digits wired with_rental_executor
starts = refl

abbrev pub docker : DockerService ℕ
docker = docker_service client backoff

abbrev body : StartBody
body = record {
  session_id = "s1";
  gpu_device_id = "0";
  image = "";
  ssh_password = "secret";
  memory_bytes = 0;
  cpu_count = 0;
}

abbrev post : Request (Option StartBody)
post = record { method = "POST"; context = background; body = some body }

-- The executor after the request.
abbrev rented : RentalExecutor ℕ PortManager
rented =
    serve_start docker port_pool "localhost" post
      (record (node_executor wired_at) { machine = linked_at })

abbrev pub renting : Phase × Linked ℕ PortManager
renting = (entering, on_rentals (serve_start docker port_pool "localhost" post) running.link)

abbrev pub encoding : Encoding
encoding = record { marshal = λ v. ok "heartbeat"; rfc3339 = λ n. "1970-01-01T00:00:00Z" }

pub runs : RunsTo platform encoding flags running renting
unfolding wired with_rental_executor new_node_daemon
runs = later here (serves_start post)

tracks : renting.1.app.rental_executor ≡ some rented
unfolding wired with_rental_executor new_node_daemon
tracks = refl

abbrev state : RentalState
state = record {
  session_id = "s1";
  container_id = "c0ffee";
  ssh_port = 30000;
  started_at = 1009;
  stopped_at = none;
}

listed : lookup "s1" rented.active ≡ some state
unfolding handle_start_rental rental_request start_rental launch docker_service port_pool
    node_executor new_rental_executor new_port_manager allocate scan lookup insert create_container
    ensure_image start_container wait_for_health poll inspect_container verdict container_info
listed = refl

start_up-ports_distinct_example : ◌≡◌ {A = String} "s1" "s1"
start_up-ports_distinct_example =
    start_up-ports_distinct platform encoding flags machine linked_at running renting rented "s1"
      "s1" state state starts runs tracks listed listed refl
