-- ===== src/Cmd/Startup.antt =====
-- `main` of cmd/node/main.go from its flags to the daemon that is connected to the hub. An error, as
-- of log.Fatalf, and a panic end the program.
pub mod Flagged
pub mod Ready
pub mod Safe
use worldland_sdk.Base.{
  ℕ, String, Bool, true, false, not, ◌&&◌, Option, none, some, List, [], ◌∷◌, if◌then◌else◌, ◌==◌,
  String-eq,
}
use worldland_sdk.Go.Errors.{
  GoError, text, Result, ok, err, wrap, Act, ◌>>=◌, ◌>>◌, pure, wrapping, ignoring,
}
use worldland_sdk.Go.Machine.{Machine, Outside, perform}
use worldland_sdk.Go.Json.{Float64}
use worldland_sdk.Container.{new_docker_service}
use worldland_sdk.Container.Client.{DockerClient, Backoff}
use worldland_sdk.Port.{PortManager}
use worldland_sdk.Rental.Wiring.{port_pool, docker_service, node_executor}
use worldland_sdk.Mining.{MiningDaemon, new_mining_daemon}
use worldland_sdk.Auth.{Libraries}
use worldland_sdk.Gpu.{GpuSpec, or_zero}
use worldland_sdk.Gpu.Providers.{GpuProvider, new_mock_gpu_provider, mock_provider}
use worldland_sdk.Node.{NodeDaemon, new_node_daemon, with_rental_executor, with_mining_daemon}
use worldland_sdk.Node.Hub.{Linked, connect_to_hub}
use worldland_sdk.Mtls.{Network}
use worldland_sdk.Cmd.{Registration, check_price, mining_config}
use worldland_sdk.Cmd.Os.{Os}
use worldland_sdk.Cmd.Flags.{Flags, host_of, early_detection}
use worldland_sdk.Cmd.Enroll.{Enrolled, enroll}

-- crypto/tls and crypto/x509: a certificate with its key, a pool with the certificates of a file, and
-- the common name of the subject of a certificate.
pub record Tls (W C R : Type 0) : Type 0 where
  pub load_key_pair : String → String → Outside W C
  pub append_certs : String → Option R
  pub common_name : C → Result String

-- All that the program runs on. `nvml` is the provider of the build.
pub record Platform (W K C R F : Type 0) : Type 0 where
  pub os : Os W
  pub libs : Libraries W K
  pub nvml : GpuProvider W
  pub tls : Tls W C R
  pub docker : Outside W (DockerClient W)
  pub backoff : Backoff W
  pub float : Float64 F
  pub dial : Outside W String
  pub network : String → C → R → Network W F

pub record Identity (C R : Type 0) : Type 0 where
  pub certificate : C
  pub roots : R
  pub node_id : String

pub record Running (W C R : Type 0) : Type 0 where
  pub link : Linked W PortManager
  pub identity : Identity C R
  pub docker : DockerClient W

-- The provider of a node without a GPU.
unfoldable pub cpu_provider : {W : Type 0} → GpuProvider W
cpu_provider = mock_provider (
    new_mock_gpu_provider
      (record {
        uuid = "cpu-node";
        name = "CPU Only";
        memory_total = 0;
        memory_used = 0;
        gpu_util = 0;
        memory_util = 0;
        temperature = 0;
      }
        ∷ [])
      (record { uuid = "cpu-node"; name = "CPU Only"; memory_total = 0; driver_ver = "N/A" } ∷ []))

module _ {W K C R F : Type 0} (on : Platform W K C R F) where
  abbrev pub named : Result String → Result String
  named (err e) = err (wrap "Failed to parse certificate for CN extraction" e)
  named (ok cn) =
      if cn == "" then err (text "node-id is required (certificate has no CN)") else ok cn

  abbrev pub node_id_of : String → C → Result String
  node_id_of node_id certificate =
      if node_id == "" then named (on.tls.common_name certificate) else ok node_id

  abbrev pub pooled : Option R → Result R
  pooled none = err (text "Failed to parse CA certificate")
  pooled (some roots) = ok roots

  -- Load certificates, and the node id from the certificate where there is none yet.
  unfoldable pub identify : Enrolled → Act (Machine W) (Identity C R)
  identify e = do
    certificate ← λ m.
        wrapping "Failed to load certificate"
          (perform (on.tls.load_key_pair e.paths.cert e.paths.key) m)
    bytes ← λ m. wrapping "Failed to read CA certificate" (perform (on.os.read_file e.paths.ca) m)
    roots ← λ m. (pooled (on.tls.append_certs bytes), m)
    node_id ← λ m. (node_id_of e.node_id certificate, m)
    pure (record { certificate = certificate; roots = roots; node_id = node_id })

  unfoldable pub choose_provider : Registration → Act (Machine W) (GpuProvider W)
  choose_provider reg = if reg.is_cpu_node then pure cpu_provider else (do
    (λ m. wrapping "GPU was detected earlier but failed to initialize" (on.nvml.init m))
    pure on.nvml)

  abbrev listed : Result (Unit {0}) × Machine W → List GpuSpec × Machine W
  listed (err e, m) = ([], m)
  listed (ok done, m) = let (r, m') = on.nvml.get_specs m in (or_zero [] r, (on.nvml.shutdown m').1)

  -- Collect GPU UUIDs for mining config
  abbrev pub list_gpus : Machine W → List GpuSpec × Machine W
  list_gpus m = listed (on.nvml.init m)

  unfoldable pub prepare_mining :
      Flags → Registration → String → Machine W → Option (MiningDaemon W) × Machine W
  prepare_mining flags reg wallet_address m =
      if flags.enable_mining && not reg.is_cpu_node
      then (let (specs, m') = list_gpus m in
          (
            some (
                new_mining_daemon m'
                  (mining_config wallet_address flags.mining_image flags.mining_data_dir specs)),
            m',
          ))
      else (none, m)

  abbrev pub with_mining :
      Option (MiningDaemon W) → NodeDaemon W PortManager → NodeDaemon W PortManager
  with_mining none d = d
  with_mining (some mining) d = with_mining_daemon mining d

  -- The daemon with the executor and, where it is enabled, mining.
  unfoldable pub wired :
      Flags
      → String
      → GpuProvider W
      → Option (MiningDaemon W)
      → Machine W
      → NodeDaemon W PortManager
  wired flags node_id provider mining m =
      with_mining mining (
        with_rental_executor (node_executor m) (host_of flags) (new_node_daemon m provider node_id))

  abbrev pub linked :
      Identity C R
      → DockerClient W
      → Result (Unit {0}) × Linked W PortManager
      → Result (Running W C R) × Machine W
  linked i docker (err e, c) = (err (wrap "Failed to connect to Hub" e), c.machine)
  linked i docker (ok done, c) =
      (ok (record { link = c; identity = i; docker = docker }), c.machine)

  abbrev pub connect_daemon :
      Flags
      → Identity C R
      → DockerClient W
      → NodeDaemon W PortManager
      → Result (Running W C R) × Machine W
  connect_daemon flags i docker d = linked i docker (
      connect_to_hub (docker_service docker on.backoff) port_pool on.float on.dial
        (on.network flags.hub_addr i.certificate i.roots) d)

  abbrev pub launch :
      Flags
      → Registration
      → Enrolled
      → Identity C R
      → GpuProvider W
      → DockerClient W
      → Act (Machine W) (Running W C R)
  launch flags reg e i provider docker m =
      let (mining, m') = prepare_mining flags reg e.wallet_address m in
      connect_daemon flags i docker (wired flags i.node_id provider mining m')

  abbrev pub detect_gpu : Flags → Act (Machine W) Registration
  detect_gpu flags m = let (reg, m') = early_detection on.nvml flags m in (ok reg, m')

  unfoldable pub start_up : Flags → Act (Machine W) (Running W C R)
  start_up flags = do
    (λ m. (check_price flags.price_per_sec, m))
    reg ← detect_gpu flags
    e ← enroll on.os on.libs on.nvml flags reg
    i ← identify e
    provider ← choose_provider reg
    docker ← λ m. wrapping "Failed to initialize Docker service" (new_docker_service on.docker m)
    launch flags reg e i provider docker
