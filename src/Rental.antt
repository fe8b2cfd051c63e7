-- ===== src/Rental.antt =====
-- internal/rental/executor.go: `RentalExecutor`, over its two interfaces. A call runs from its start
-- to its end; the goroutines that `StopRental` starts are the list `pending`.
pub mod Interfaces
pub mod Wait
pub mod Health
pub mod Start
pub mod Stop
pub mod Pending
pub mod Invariant
pub mod History
pub mod Wiring
pub mod Race
pub mod Stale
pub mod Booking
pub mod Keys
pub mod Listing
pub mod Claims
pub mod Threads
use worldland_sdk.Base.{
  ℕ, zero, suc, ◌+◌, ◌*◌, ◌/◌, String, Bool, true, false, ◌||◌, Option, none, some, List, [], ◌∷◌,
  ◌++◌, map, ltb, is_some, if◌then◌else◌, ◌==◌, String-eq,
}
use worldland_sdk.Go.Errors.{
  GoError, sentinel, text, wrap, session_already_active, session_not_found, container_not_healthy,
  Result, ok, err, Act, ◌>>=◌, ◌>>◌, pure, wrapping, ignoring,
}
use worldland_sdk.Go.Context.{Context, background, is_done, second}
use worldland_sdk.Go.Map.{Map, lookup, insert, delete}
use worldland_sdk.Go.Machine.{Machine, sleep}
use worldland_sdk.Go.Strconv.{itoa}
use worldland_sdk.Container.{ContainerConfig, ContainerInfo, ◌<>◌}
use Interfaces.{DockerService, PortPool}
use Wait.{wait_for_health}

pub record RentalState : Type 0 where
  pub session_id : String
  pub container_id : String
  pub ssh_port : ℕ
  pub started_at : ℕ
  pub stopped_at : Option ℕ

pub record ConnectionInfo : Type 0 where
  pub host : String
  pub port : ℕ
  pub user : String
  pub command : String
  pub container_id : String

pub record StartRentalRequest : Type 0 where
  pub session_id : String
  pub image : String
  pub gpu_device_id : String
  pub ssh_password : String
  pub memory_bytes : ℕ
  pub cpu_count : ℕ
  pub host : String

-- A goroutine in `scheduleCleanup`, asleep until `due`.
pub record Cleanup : Type 0 where
  pub due : ℕ
  pub session_id : String
  pub container_id : String
  pub ssh_port : ℕ

pub record RentalExecutor (W P : Type 0) : Type 0 where
  pub machine : Machine W
  pub ports : P
  pub active : Map String RentalState
  pub pending : List Cleanup
  pub grace_period : ℕ
  pub health_timeout : ℕ
  pub health_interval : ℕ

unfoldable pub new_rental_executor : {W P : Type 0} → Machine W → P → ℕ → RentalExecutor W P
new_rental_executor machine ports grace_period = record {
  machine = machine;
  ports = ports;
  active = [];
  pending = [];
  grace_period = grace_period;
  health_timeout = 60 * second;
  health_interval = 2 * second;
}

abbrev pub container_config : StartRentalRequest → ℕ → ContainerConfig
container_config req port = record {
  session_id = req.session_id;
  image = req.image;
  gpu_device_id = req.gpu_device_id;
  ssh_password = req.ssh_password;
  ssh_port = port;
  memory_bytes = req.memory_bytes;
  cpu_count = req.cpu_count;
  use_image_entrypoint = false;
}

abbrev pub connection_info : StartRentalRequest → ℕ → String → ConnectionInfo
connection_info req port container_id = record {
  host = req.host;
  port = port;
  user = "ubuntu";
  command = "ssh -p " <> itoa port <> " ubuntu@" <> req.host;
  container_id = container_id;
}

module _ {W P : Type 0} (docker : DockerService W) (pool : PortPool P) where
  abbrev pub on_machine : {A : Type 0} → Act (Machine W) A → Act (RentalExecutor W P) A
  on_machine f re = let (r, m) = f re.machine in (r, record re { machine = m })

  abbrev pub allocate_port : String → Act (RentalExecutor W P) ℕ
  allocate_port session_id re =
      let (r, ports) = pool.allocate re.machine.clock session_id re.ports in
      (r, record re { ports = ports })

  abbrev pub release_port : ℕ → RentalExecutor W P → RentalExecutor W P
  release_port port re = record re {
    ports = ignoring (pool.release re.machine.clock port re.ports);
  }

  abbrev pub drop_container : String → RentalExecutor W P → RentalExecutor W P
  drop_container container_id re = record re {
    machine = ignoring (docker.remove_container background container_id true re.machine);
  }

  -- the closure cleanupOnError
  abbrev pub cleanup_on_error : String → ℕ → RentalExecutor W P → RentalExecutor W P
  cleanup_on_error container_id port re =
      release_port port (if container_id == "" then re else drop_container container_id re)

  abbrev pub guarded :
      {A : Type 0}
      → String
      → String
      → ℕ
      → Result A × RentalExecutor W P
      → Result A × RentalExecutor W P
  guarded message container_id port (ok a, re) = (ok a, re)
  guarded message container_id port (err e, re) =
      (err (wrap message e), cleanup_on_error container_id port re)

  abbrev pub track : StartRentalRequest → ℕ → String → Act (RentalExecutor W P) ConnectionInfo
  track req port container_id re = (
    ok (connection_info req port container_id),
    record re {
      active =
          insert req.session_id
            (record {
              session_id = req.session_id;
              container_id = container_id;
              ssh_port = port;
              started_at = re.machine.clock;
              stopped_at = none;
            })
            re.active;
    },
  )

  abbrev pub create : Context → StartRentalRequest → ℕ → Act (RentalExecutor W P) String
  create ctx req port re =
      guarded "failed to create container" "" port
        (on_machine (docker.create_container ctx (container_config req port)) re)

  abbrev pub start : Context → ℕ → String → Act (RentalExecutor W P) (Unit {0})
  start ctx port container_id re =
      guarded "failed to start container" container_id port
        (on_machine (docker.start_container ctx container_id) re)

  abbrev pub await_health : Context → ℕ → String → Act (RentalExecutor W P) (Unit {0})
  await_health ctx port container_id re =
      guarded "failed health check" container_id port (
        on_machine (wait_for_health docker re.health_timeout re.health_interval ctx container_id)
          re)

  -- `StartRental` after its check for a duplicate session
  unfoldable pub launch : Context → StartRentalRequest → Act (RentalExecutor W P) ConnectionInfo
  launch ctx req = do
    port ← λ re. wrapping "failed to allocate port" (allocate_port req.session_id re)
    container_id ← create ctx req port
    start ctx port container_id
    await_health ctx port container_id
    track req port container_id

  unfoldable pub start_rental :
      Context → StartRentalRequest → Act (RentalExecutor W P) ConnectionInfo
  start_rental ctx req re =
      if is_some (lookup req.session_id re.active)
      then (err (sentinel session_already_active), re)
      else launch ctx req re

  -- go re.scheduleCleanup(…)
  abbrev pub schedule : RentalState → String → RentalExecutor W P → RentalExecutor W P
  schedule state session_id re = record re {
    pending =
        re.pending
        ++ record {
          due = re.machine.clock + re.grace_period;
          session_id = session_id;
          container_id = state.container_id;
          ssh_port = state.ssh_port;
        }
          ∷ [];
  }

  abbrev pub mark_stopped : String → RentalState → RentalExecutor W P → RentalExecutor W P
  mark_stopped session_id state re = record re {
    active = insert session_id (record state { stopped_at = some re.machine.clock }) re.active;
  }

  abbrev pub scheduled :
      RentalState
      → String
      → Result (Unit {0}) × RentalExecutor W P
      → Result (Unit {0}) × RentalExecutor W P
  scheduled state session_id (ok _, re) = (ok tt, schedule state session_id re)
  scheduled state session_id (err e, re) = (err (wrap "failed to stop container" e), re)

  abbrev pub stop_found :
      Context → String → Option RentalState → Act (RentalExecutor W P) (Unit {0})
  stop_found ctx session_id none re = (err (sentinel session_not_found), re)
  stop_found ctx session_id (some state) re = scheduled state session_id (
      on_machine (docker.stop_container ctx state.container_id 10)
        (mark_stopped session_id state re))

  unfoldable pub stop_rental : Context → String → Act (RentalExecutor W P) (Unit {0})
  stop_rental ctx session_id re = stop_found ctx session_id (lookup session_id re.active) re

  -- `scheduleCleanup` after its sleep
  unfoldable pub clean_up : Cleanup → RentalExecutor W P → RentalExecutor W P
  clean_up c re =
      let released = release_port c.ssh_port (drop_container c.container_id re) in
      record released { active = delete c.session_id released.active }

module _ {W P : Type 0} where
  unfoldable pub get_rental_status : String → RentalExecutor W P → Result RentalState
  get_rental_status session_id re = elim (lookup session_id re.active) [
    | none ↦ err (sentinel session_not_found)
    | some state ↦ ok state
  ]

  unfoldable pub list_active_rentals : RentalExecutor W P → List RentalState
  list_active_rentals re = map (λ entry. entry.1) re.active
