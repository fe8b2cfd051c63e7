-- ===== src/Container/Client.antt =====
-- The Docker SDK and the backoff package, which internal/container/docker.go calls and which are no
-- part of the repository: parameters, by the interface `DockerClient` of that file.
use worldland_sdk.Base.{ℕ, ◌≡◌, String, Bool, Option, List}
use worldland_sdk.Go.Errors.{GoError, Act, Result, ok, err}
use worldland_sdk.Go.Context.{Context}
use worldland_sdk.Go.Map.{Map}
use worldland_sdk.Go.Machine.{Machine, Outside, sleep}

-- container.Config, HostConfig and nat.PortBinding, with the fields that the program sets.
pub record Config : Type 0 where
  pub image : String
  pub env : List String
  pub exposed_ports : List String
  pub entrypoint : List String
  pub cmd : List String

pub record PortBinding : Type 0 where
  pub host_ip : String
  pub host_port : String

-- An int64 is its bit pattern, a number below 2 ^ 64.
pub record HostConfig : Type 0 where
  pub runtime : String
  pub memory : ℕ
  pub nano_cpus : ℕ
  pub port_bindings : Map String (List PortBinding)

-- types.ContainerJSON, with the fields that the program reads. A nil pointer is `none`.
pub record NetworkSettings : Type 0 where
  pub ports : Option (Map String (List PortBinding))

pub record ContainerStatus : Type 0 where
  pub status : String
  pub health : Option String

pub record ContainerJson : Type 0 where
  pub id : String
  pub network_settings : Option NetworkSettings
  pub state : Option ContainerStatus

-- The stream of a pull, by its handle.
pub record Reader : Type 0 where
  pub handle : ℕ

-- Which of the three channels of the `select` in `StopContainer` is ready first.
pub data WaitEvent : Type 0 where
  exited : WaitEvent
  wait_failed : GoError → WaitEvent
  context_done : WaitEvent

pub record DockerClient (W : Type 0) : Type 0 where
  pub image_inspect : Context → String → Outside W (Unit {0})
  pub image_pull : Context → String → Outside W Reader
  pub read_all : Reader → Outside W (Unit {0})
  pub close_reader : Reader → Outside W (Unit {0})
  pub container_create : Context → Config → HostConfig → String → Outside W String
  pub container_start : Context → String → Outside W (Unit {0})
  pub container_stop : Context → String → ℕ → Outside W (Unit {0})
  pub container_wait : Context → String → Outside W WaitEvent
  pub container_remove : Context → String → Bool → Bool → Outside W (Unit {0})
  pub container_inspect : Context → String → Outside W ContainerJson
  pub close : Outside W (Unit {0})

-- What backoff.Retry documents: it calls the operation, waits and calls it again until it returns
-- no error, or until the policy or the context stops it.
pub data Attempts {W : Type 0} (op : Act (Machine W) (Unit {0}))
    : Machine W → Result (Unit {0}) × Machine W → Type 0 where
  succeeded : {m m' : Machine W} → op m ≡ (ok tt, m') → Attempts op m (ok tt, m')
  stopped :
      {m m' : Machine W} {e : GoError} (d : ℕ) (e' : GoError)
      → op m ≡ (err e, m')
      → Attempts op m (err e', sleep d m')
  again :
      {m m' : Machine W} {e : GoError} {r : Result (Unit {0}) × Machine W} (d : ℕ)
      → op m ≡ (err e, m')
      → Attempts op (sleep d m') r
      → Attempts op m r

pub record Policy : Type 0 where
  pub initial_interval : ℕ
  pub max_interval : ℕ
  pub max_elapsed_time : ℕ

pub record Backoff (W : Type 0) : Type 0 where
  pub retry : Context → Policy → Act (Machine W) (Unit {0}) → Act (Machine W) (Unit {0})
  pub retry-Attempts :
      (ctx : Context) (policy : Policy) (op : Act (Machine W) (Unit {0})) (m : Machine W)
      → Attempts op m (retry ctx policy op m)
