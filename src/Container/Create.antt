-- ===== src/Container/Create.antt =====
-- What `CreateContainer` of internal/container/docker.go asks of the Docker daemon.
use Prim.Native.String.{String}
use worldland_sdk.Base.{◌≤◌, ◌≡◌, some, if◌then◌else◌, Bool-cases, inl, inr, String-eq, arith}
use worldland_sdk.Go.Errors.{ok}
use worldland_sdk.Go.Context.{Context}
use worldland_sdk.Go.Machine.{Machine, perform}
use worldland_sdk.Go.Strconv.{pos, max_int}
use worldland_sdk.Go.Strconv.Roundtrip.{atoi-itoa}
use worldland_sdk.Go.Map.{lookup}
use worldland_sdk.Container.{ContainerConfig, container_info, port_bindings}
use worldland_sdk.Container.Client.{DockerClient, ContainerJson, Reader}

-- The daemon that publishes the bindings it was given reports the port that was configured, and 0
-- for a container without SSH.
pub container_info-port_bindings :
    (cfg : ContainerConfig) (inspect : ContainerJson)
    → cfg.ssh_port ≤ max_int
    → inspect.network_settings ≡ some (record { ports = some (port_bindings cfg) })
    → (container_info inspect).ssh_port
      ≡ (if cfg.use_image_entrypoint then pos 0 else pos cfg.ssh_port)
unfolding container_info port_bindings lookup
container_info-port_bindings cfg inspect small h = elim (Bool-cases cfg.use_image_entrypoint) [
  | inl e ↦ rw h (rw e)
  | inr e ↦ rw h (rw e (ground (arith, atoi-itoa cfg.ssh_port small)))
]

-- The image was on the host, or it was pulled to the end of its stream.
pub data HasImage {W : Type 0} (cli : DockerClient W) (ctx : Context) (name : String)
    (m : Machine W) : Type 0 where
  on_host : (perform (cli.image_inspect ctx name) m).0 ≡ ok tt → HasImage cli ctx name m
  pulled :
      (reader : Reader) (n n' : Machine W)
      → perform (cli.image_pull ctx name) n ≡ (ok reader, n')
      → (perform (cli.read_all reader) n').0 ≡ ok tt
      → HasImage cli ctx name m
