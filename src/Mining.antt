-- ===== src/Mining.antt =====
-- internal/mining/daemon.go: `MiningDaemon`, over the methods of `DockerService`. A call runs from
-- its start to its end; `restarts` counts the goroutines of `PauseForRental` that have not run yet,
-- and a second `Close`, which panics, is left out. Log lines are left out, and with them the slices
-- `containerID[:12]`, which want ids of 12 bytes or more (Docker's have 64).
pub mod Config
pub mod Rented
pub mod Free
pub mod Start
pub mod Gpus
pub mod History
pub mod Stranded
pub mod Monitor
pub mod Resume
use worldland_sdk.Base.{
  ℕ, suc, ◌+◌, ◌-◌, ◌*◌, ◌<◌, String, Bool, true, false, not, ◌&&◌, ◌||◌, Option, none, some, List,
  [], ◌∷◌, length, ltb, is_some, if◌then◌else◌, ◌==◌, String-eq,
}
use worldland_sdk.Go.Errors.{Result, ok, err, wrap, Act, ◌>>=◌, ◌>>◌, wrapping, ignoring}
use worldland_sdk.Go.Context.{Context, with_timeout, second}
use worldland_sdk.Go.Map.{Map, lookup, insert, delete}
use worldland_sdk.Go.Machine.{Machine}
use worldland_sdk.Container.{ContainerConfig, ContainerInfo}
use worldland_sdk.Rental.Interfaces.{DockerService}
use Config.{MiningConfig}
use Rented.{available_of, mark_all, unmark_all}

pub data MiningState : Type 0 where
  stopped running paused : MiningState

pub record MiningStatus : Type 0 where
  pub state : MiningState
  pub container_id : String
  pub gpu_count : ℕ
  pub started_at : Option ℕ
  pub paused_at : Option ℕ

pub record MiningDaemon (W : Type 0) : Type 0 where
  pub machine : Machine W
  pub config : MiningConfig
  pub state : MiningState
  pub container_id : String
  pub started_at : Option ℕ
  pub paused_at : Option ℕ
  pub paused_gpus : Map String Bool
  pub restarts : ℕ
  -- stopCh is closed
  pub is_closed : Bool

unfoldable pub new_mining_daemon : {W : Type 0} → Machine W → MiningConfig → MiningDaemon W
new_mining_daemon machine config = record {
  machine = machine;
  config = config;
  state = stopped;
  container_id = "";
  started_at = none;
  paused_at = none;
  paused_gpus = [];
  restarts = 0;
  is_closed = false;
}

abbrev pub is_running : MiningState → Bool
is_running running = true
is_running _ = false

abbrev pub is_stopped : MiningState → Bool
is_stopped stopped = true
is_stopped _ = false

abbrev pub is_paused : MiningState → Bool
is_paused paused = true
is_paused _ = false

-- getAvailableGPUs
unfoldable pub available_gpus : {W : Type 0} → MiningDaemon W → List String
available_gpus m = available_of m.paused_gpus m.config.gpu_device_ids

abbrev pub mining_container : MiningConfig → String → ContainerConfig
mining_container config gpu = record {
  session_id = "worldland-mining";
  image = config.image;
  gpu_device_id = gpu;
  ssh_password = "";
  ssh_port = 0;
  memory_bytes = 8 * 1024 * 1024 * 1024;
  cpu_count = 2;
  use_image_entrypoint = true;
}

-- Which channel the `select` of `MonitorLoop` receives from. The second is ready once `Close` was
-- called.
pub data Signal : Type 0 where
  cancelled closed ticked : Signal

unfoldable pub close : {W : Type 0} → MiningDaemon W → MiningDaemon W
close m = record m { is_closed = true }

unfoldable pub status : {W : Type 0} → MiningDaemon W → MiningStatus
status m = record {
  state = m.state;
  container_id = m.container_id;
  gpu_count = length (available_gpus m);
  started_at = m.started_at;
  paused_at = m.paused_at;
}

module _ {W : Type 0} (docker : DockerService W) where
  abbrev pub on_machine : {A : Type 0} → Act (Machine W) A → Act (MiningDaemon W) A
  on_machine f m = let (r, machine) = f m.machine in (r, record m { machine = machine })

  -- Cleanup on failure
  abbrev pub or_remove :
      Context → String → Result (Unit {0}) × MiningDaemon W → Result (Unit {0}) × MiningDaemon W
  or_remove ctx id (ok done, m) = (ok done, m)
  or_remove ctx id (err e, m) = (
    err (wrap "failed to start mining container" e),
    ignoring (on_machine (docker.remove_container ctx id true) m),
  )

  abbrev pub set_paused : MiningDaemon W → MiningDaemon W
  set_paused m = record m { state = paused; paused_at = some m.machine.clock }

  abbrev pub set_running : String → Act (MiningDaemon W) (Unit {0})
  set_running id m = (
    ok tt,
    record m {
      container_id = id;
      state = running;
      started_at = some m.machine.clock;
      paused_at = none;
    },
  )

  abbrev pub launch : Context → String → Act (MiningDaemon W) (Unit {0})
  launch ctx gpu m =
      (do
        id ← λ n.
            wrapping "failed to create mining container"
              (on_machine (docker.create_container ctx (mining_container n.config gpu)) n)
        (λ n. or_remove ctx id (on_machine (docker.start_container ctx id) n))
        set_running id)
        m

  abbrev pub start_on : Context → List String → Act (MiningDaemon W) (Unit {0})
  start_on ctx [] m = (ok tt, set_paused m)
  start_on ctx (gpu ∷ gpus) m = launch ctx gpu m

  unfoldable pub start : Context → Act (MiningDaemon W) (Unit {0})
  start ctx m =
      if not m.config.enabled
      then (ok tt, m)
      else if is_running m.state
      then (ok tt, m)
      else start_on ctx (available_gpus m) m

  -- The container is stopped and removed, with a warning where that fails.
  abbrev pub discard : Context → String → MiningDaemon W → MiningDaemon W
  discard ctx id m = ignoring (
      on_machine (docker.remove_container ctx id true)
        (ignoring (on_machine (docker.stop_container ctx id 10) m)))

  abbrev pub set_stopped : MiningDaemon W → MiningDaemon W
  set_stopped m = record m {
    container_id = "";
    state = stopped;
    started_at = none;
    paused_at = none;
  }

  unfoldable pub stop : Context → Act (MiningDaemon W) (Unit {0})
  stop ctx m = if is_stopped m.state then (ok tt, m) else (
    ok tt,
    set_stopped (if not (m.container_id == "") then discard ctx m.container_id m else m),
  )

  abbrev pub yield_gpus : List String → MiningDaemon W → MiningDaemon W
  yield_gpus [] m = set_paused m
  yield_gpus (gpu ∷ gpus) m = record m { restarts = suc m.restarts }

  unfoldable pub pause_for_rental : Context → List String → Act (MiningDaemon W) (Unit {0})
  pause_for_rental ctx gpus m =
      let rented = record m { paused_gpus = mark_all gpus m.paused_gpus } in
      if is_running m.state && not (m.container_id == "")
      then (let idle = record (discard ctx m.container_id rented) { container_id = "" } in
          (ok tt, yield_gpus (available_gpus idle) idle))
      else (ok tt, rented)

  unfoldable pub resume_after_rental : Context → List String → Act (MiningDaemon W) (Unit {0})
  resume_after_rental ctx gpus m =
      let returned = record m { paused_gpus = unmark_all gpus m.paused_gpus } in
      if is_paused m.state || is_stopped m.state then start ctx returned else (ok tt, returned)

  -- The goroutine of `PauseForRental`, once for each that is waiting.
  unfoldable pub restart : MiningDaemon W → MiningDaemon W
  restart m =
      if ltb 0 m.restarts
      then ignoring (
          start (with_timeout m.machine.clock (30 * second))
            (record m { restarts = m.restarts - 1 }))
      else m

  abbrev pub is_alive : Result ContainerInfo → Bool
  is_alive (ok info) = info.state == "running"
  is_alive (err e) = false

  abbrev pub revive : Result ContainerInfo × MiningDaemon W → MiningDaemon W
  revive (r, m) =
      if is_alive r
      then m
      else ignoring (
          start (with_timeout m.machine.clock (30 * second))
            (record m { container_id = ""; state = stopped }))

  -- One tick of `MonitorLoop`.
  unfoldable pub monitor : Context → MiningDaemon W → MiningDaemon W
  monitor ctx m =
      if is_running m.state && not (m.container_id == "")
      then revive (on_machine (docker.inspect_container ctx m.container_id) m)
      else m

  -- The rounds of `MonitorLoop`, by the channels that its rounds receive from.
  unfoldable pub monitor_loop : Context → List Signal → MiningDaemon W → MiningDaemon W
  monitor_loop ctx [] m = m
  monitor_loop ctx (cancelled ∷ signals) m = m
  monitor_loop ctx (closed ∷ signals) m = m
  monitor_loop ctx (ticked ∷ signals) m = monitor_loop ctx signals (monitor ctx m)
