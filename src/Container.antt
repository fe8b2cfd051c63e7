-- ===== src/Container.antt =====
-- internal/container/docker.go: the types and methods of `DockerService`, over the Docker client
-- and the backoff package of Container/Client.antt. Log lines are left out.
pub mod Client
pub mod Create
pub mod Lifecycle
use Prim.Native.String
use worldland_sdk.Base.{starts_with}
use worldland_sdk.Base.{
  ℕ, ◌*◌, ◌%◌, ◌^◌, String, Bool, true, false, not, ◌&&◌, ◌||◌, Option, none, some, List, [], ◌∷◌,
  if◌then◌else◌, ◌==◌, String-eq,
}
use worldland_sdk.Go.Errors.{
  GoError, sentinel, Result, ok, err, wrap, Act, ◌>>=◌, ◌>>◌, pure, wrapping, ignoring,
}
use worldland_sdk.Go.Context.{Context, second}
use worldland_sdk.Go.Map.{Map, lookup}
use worldland_sdk.Go.Machine.{Machine, Outside, perform}
use worldland_sdk.Go.Strconv.{ℤ, pos, itoa, atoi}
use Client.{
  Config, HostConfig, PortBinding, NetworkSettings, ContainerStatus, ContainerJson, Reader,
  WaitEvent, exited, wait_failed, context_done, DockerClient, Backoff, Policy,
}

pub record ContainerConfig : Type 0 where
  pub session_id : String
  pub image : String
  pub gpu_device_id : String
  pub ssh_password : String
  pub ssh_port : ℕ
  pub memory_bytes : ℕ
  pub cpu_count : ℕ
  pub use_image_entrypoint : Bool

pub record ContainerInfo : Type 0 where
  pub container_id : String
  pub ssh_port : ℤ
  pub state : String
  pub health : String

infixr 65 ◌<>◌
abbrev pub ◌<>◌ : String → String → String
s <> t = String.◌++◌ s t

unfoldable pub is_gpu_uuid : String → Bool
is_gpu_uuid s = starts_with s "GPU-" || starts_with s "MIG-"

unfoldable pub gpu_device : ContainerConfig → String
gpu_device cfg =
    if not (cfg.gpu_device_id == "")
      && not (cfg.gpu_device_id == "all")
      && not (is_gpu_uuid cfg.gpu_device_id)
    then cfg.gpu_device_id
    else "all"

abbrev pub ssh_setup_script : String
ssh_setup_script =
    "set -e\nexport DEBIAN_FRONTEND=noninteractive\napt-get update -qq\napt-get install -y -qq openssh-server sudo > /dev/null 2>&1\n\n# Create user with password\nuseradd -m -s /bin/bash \"$USER_NAME\" 2>/dev/null || true\necho \"$USER_NAME:$SSH_PASSWORD\" | chpasswd\necho \"$USER_NAME ALL=(ALL) NOPASSWD:ALL\" >> /etc/sudoers\n\n# Configure sshd\nmkdir -p /run/sshd\nsed -i 's/#PasswordAuthentication yes/PasswordAuthentication yes/' /etc/ssh/sshd_config\nsed -i 's/PasswordAuthentication no/PasswordAuthentication yes/' /etc/ssh/sshd_config\nsed -i 's/#PermitRootLogin.*/PermitRootLogin no/' /etc/ssh/sshd_config\n\necho \"SSH server ready on port 22\"\nexec /usr/sbin/sshd -D\n"

-- containerConfig of `CreateContainer`
unfoldable pub container_config : ContainerConfig → Config
container_config cfg =
    if cfg.use_image_entrypoint
    then record {
      image = cfg.image;
      env = ("NVIDIA_VISIBLE_DEVICES=" <> gpu_device cfg) ∷ "NVIDIA_DRIVER_CAPABILITIES=all" ∷ [];
      exposed_ports = [];
      entrypoint = [];
      cmd = [];
    }
    else record {
      image = cfg.image;
      env =
          ("SSH_PASSWORD=" <> cfg.ssh_password)
          ∷ "USER_NAME=ubuntu"
          ∷ ("NVIDIA_VISIBLE_DEVICES=" <> gpu_device cfg)
          ∷ "NVIDIA_DRIVER_CAPABILITIES=all"
          ∷ [];
      exposed_ports = "22/tcp" ∷ [];
      entrypoint = "/bin/bash" ∷ "-c" ∷ [];
      cmd = ssh_setup_script ∷ [];
    }

unfoldable pub port_bindings : ContainerConfig → Map String (List PortBinding)
port_bindings cfg =
    if cfg.use_image_entrypoint
    then []
    else ("22/tcp", record { host_ip = "0.0.0.0"; host_port = itoa cfg.ssh_port } ∷ []) ∷ []

-- int64 multiplication, on bit patterns
abbrev pub mul_int64 : ℕ → ℕ → ℕ
mul_int64 a b = a * b % 2 ^ 64

unfoldable pub host_config : ContainerConfig → HostConfig
host_config cfg = record {
  runtime = "nvidia";
  memory = cfg.memory_bytes;
  nano_cpus = mul_int64 cfg.cpu_count 1_000_000_000;
  port_bindings = port_bindings cfg;
}

abbrev backoff_policy : Policy
backoff_policy = record {
  initial_interval = 2 * second;
  max_interval = 10 * second;
  max_elapsed_time = 30 * second;
}

abbrev first_port : Option (List PortBinding) → ℤ
first_port none = pos 0
first_port (some []) = pos 0
first_port (some (binding ∷ _)) = elim (atoi binding.host_port) [ none ↦ pos 0 | some port ↦ port ]

abbrev published_port : Option NetworkSettings → ℤ
published_port none = pos 0
published_port (some settings) = elim settings.ports [
  | none ↦ pos 0
  | some ports ↦ first_port (lookup "22/tcp" ports)
]

abbrev health_of : Option ContainerStatus → String
health_of none = ""
health_of (some status) = elim status.health [ none ↦ "" | some health ↦ health ]

abbrev state_of : Option ContainerStatus → String
state_of none = ""
state_of (some status) = status.status

-- What `InspectContainer` reads from the daemon's answer.
unfoldable pub container_info : ContainerJson → ContainerInfo
container_info inspect = record {
  container_id = inspect.id;
  ssh_port = published_port inspect.network_settings;
  state = state_of inspect.state;
  health = health_of inspect.state;
}

-- `Close`: a service without a client has nothing to close.
-- A service is its client, which `connect` makes from the environment.
unfoldable pub new_docker_service :
    {W : Type 0} → Outside W (DockerClient W) → Act (Machine W) (DockerClient W)
new_docker_service connect m = wrapping "failed to create docker client" (perform connect m)

abbrev pub new_docker_service_with_client : {W : Type 0} → DockerClient W → DockerClient W
new_docker_service_with_client cli = cli

unfoldable pub close_service : {W : Type 0} → Option (DockerClient W) → Act (Machine W) (Unit {0})
close_service none m = (ok tt, m)
close_service (some cli) m = perform cli.close m

module _ {W : Type 0} (cli : DockerClient W) where
  -- io.Copy to the end of the stream; the deferred `Close` runs on both ways out
  abbrev finish_pull : String → Reader → Act (Machine W) (Unit {0})
  finish_pull name reader m =
      let (copied, m') =
        wrapping ("error during image pull " <> name) (perform (cli.read_all reader) m) in
      (copied, ignoring (perform (cli.close_reader reader) m'))

  abbrev pull : String → Context → Act (Machine W) (Unit {0})
  pull name ctx m =
      (do
        reader ←
            λ n. wrapping ("failed to pull image " <> name) (perform (cli.image_pull ctx name) n)
        finish_pull name reader)
        m

  abbrev unless_found :
      Act (Machine W) (Unit {0}) → Result (Unit {0}) × Machine W → Result (Unit {0}) × Machine W
  unless_found k (ok found, m) = (ok tt, m)
  unless_found k (err e, m) = k m

  unfoldable pub ensure_image : Context → String → Act (Machine W) (Unit {0})
  ensure_image ctx name m = unless_found (pull name ctx) (perform (cli.image_inspect ctx name) m)

  unfoldable pub create_container : Context → ContainerConfig → Act (Machine W) String
  create_container ctx cfg m =
      (do
        (λ n. wrapping "failed to ensure image" (ensure_image ctx cfg.image n))
        (λ n. wrapping "failed to create container" (
            perform
              (cli.container_create ctx (container_config cfg) (host_config cfg) cfg.session_id)
              n)))
        m

  -- the operation that is retried
  abbrev pub start_once : Context → String → Act (Machine W) (Unit {0})
  start_once ctx container_id m =
      wrapping "failed to start container" (perform (cli.container_start ctx container_id) m)

  unfoldable pub start_container : Backoff W → Context → String → Act (Machine W) (Unit {0})
  start_container backoff ctx container_id m =
      wrapping "failed to start container after retries"
        (backoff.retry ctx backoff_policy (start_once ctx container_id) m)

  abbrev waited : Context → WaitEvent → Act (Machine W) (Unit {0})
  waited ctx exited m = (ok tt, m)
  waited ctx (wait_failed e) m = (err (wrap "error waiting for container to stop" e), m)
  waited ctx context_done m = (err (sentinel ctx.reason), m)

  unfoldable pub stop_container : Context → String → ℕ → Act (Machine W) (Unit {0})
  stop_container ctx container_id timeout m =
      (do
        (λ n.
            wrapping "failed to stop container"
              (perform (cli.container_stop ctx container_id timeout) n))
        event ← perform (cli.container_wait ctx container_id)
        waited ctx event)
        m

  unfoldable pub remove_container : Context → String → Bool → Act (Machine W) (Unit {0})
  remove_container ctx container_id force m =
      wrapping "failed to remove container"
        (perform (cli.container_remove ctx container_id true force) m)

  unfoldable pub inspect_container : Context → String → Act (Machine W) ContainerInfo
  inspect_container ctx container_id m =
      (do
        inspect ← λ n.
            wrapping "failed to inspect container"
              (perform (cli.container_inspect ctx container_id) n)
        pure (container_info inspect))
        m
