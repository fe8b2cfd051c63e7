-- ===== src/Examples/World.antt =====
-- A Docker daemon that counts the containers it has made, answers every call after one nanosecond
-- and shows each container as running without a health check.
use worldland_sdk.Base.{ℕ, suc, ◌≡◌, refl, String, none, some, []}
use worldland_sdk.Go.Errors.{Result, ok, err, Act}
use worldland_sdk.Go.Json.{Float64}
use worldland_sdk.Go.Machine.{Machine, Outside, sleep}
use worldland_sdk.Container.Client.{
  DockerClient, ContainerJson, Backoff, Attempts, succeeded, stopped, exited,
}
use worldland_sdk.Gpu.Providers.{GpuProvider, mock_provider, new_mock_gpu_provider}
use worldland_sdk.Port.{PortManager, new_port_manager}
use worldland_sdk.Rental.{RentalExecutor, StartRentalRequest, new_rental_executor}
use worldland_sdk.Rental.Interfaces.{DockerService}
use worldland_sdk.Rental.Wiring.{docker_service}

abbrev pub says : {A : Type 0} → A → Outside ℕ A
says a w = record { result = ok a; took = 1; world = w }

abbrev makes : Outside ℕ String
makes w = record { result = ok "c0ffee"; took = 1; world = suc w }

abbrev pub shown : String → ContainerJson
shown id = record {
  id = id;
  network_settings = none;
  state = some (record { status = "running"; health = none });
}

abbrev pub client : DockerClient ℕ
client = record {
  image_inspect = λ ctx name. says tt;
  image_pull = λ ctx name. says (record { handle = 1 });
  read_all = λ reader. says tt;
  close_reader = λ reader. says tt;
  container_create = λ ctx config host_config name. makes;
  container_start = λ ctx id. says tt;
  container_stop = λ ctx id timeout. says tt;
  container_wait = λ ctx id. says exited;
  container_remove = λ ctx id volumes force. says tt;
  container_inspect = λ ctx id. says (shown id);
  close = says tt;
}

-- A retry that gives up after the first failure.
abbrev ended : Result (Unit {0}) × Machine ℕ → Result (Unit {0}) × Machine ℕ
ended (ok a, m) = (ok a, m)
ended (err e, m) = (err e, sleep 0 m)

abbrev once : Act (Machine ℕ) (Unit {0}) → Act (Machine ℕ) (Unit {0})
once op m = ended (op m)

pub once-Attempts : (op : Act (Machine ℕ) (Unit {0})) (m : Machine ℕ) → Attempts op m (once op m)
once-Attempts op m = go (op m) refl
  where
    go : (x : Result (Unit {0}) × Machine ℕ) → op m ≡ x → Attempts op m (ended x)
    go (ok tt, n) e = succeeded e
    go (err x, n) e = stopped 0 x e

abbrev pub backoff : Backoff ℕ
backoff = record { retry = λ ctx policy. once; retry-Attempts = λ ctx policy. once-Attempts }

abbrev pub docker : DockerService ℕ
docker = docker_service client backoff

abbrev pub machine : Machine ℕ
machine = record { clock = 1000; world = 0 }

abbrev pub ports : PortManager
ports = new_port_manager 30000 30002 50

abbrev pub executor : RentalExecutor ℕ PortManager
executor = new_rental_executor machine ports 50

abbrev pub request : StartRentalRequest
request = record {
  session_id = "s1";
  image = "ubuntu";
  gpu_device_id = "0";
  ssh_password = "secret";
  memory_bytes = 1024;
  cpu_count = 2;
  host = "10.0.0.1";
}

-- float64 as the whole numbers
abbrev pub float : Float64 ℕ
float = record { to_int64 = λ n. n; of_int = λ n. n }

abbrev pub dial : Outside ℕ String
dial = says "192.168.0.2"

-- The provider of a node without GPUs.
abbrev pub provider : GpuProvider ℕ
provider = mock_provider (new_mock_gpu_provider [] [])
