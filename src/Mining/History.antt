-- ===== src/Mining/History.antt =====
-- Histories of `MiningDaemon` of internal/mining/daemon.go: the calls of the node, the goroutines of
-- `PauseForRental` and the ticks of `MonitorLoop` in any order, and the invariant that they keep.
use worldland_sdk.Base.{
  ℕ, ◌+◌, ◌-◌, ◌*◌, ◌≡◌, refl, String, true, false, List, [], ◌∷◌, is_some, String-eq, arith,
}
use worldland_sdk.Go.Errors.{Result}
use worldland_sdk.Go.Context.{Context, with_timeout, second}
use worldland_sdk.Go.Machine.{Machine}
use worldland_sdk.Container.{ContainerInfo}
use worldland_sdk.Mining.{
  Signal, ticked, cancelled, closed, monitor_loop, MiningDaemon, stopped, start, stop,
  pause_for_rental, resume_after_rental, restart, monitor, revive, is_running, is_paused,
  new_mining_daemon,
}
use worldland_sdk.Mining.Rented.{unmark_all}
use worldland_sdk.Mining.Config.{MiningConfig}
use worldland_sdk.Mining.Start.{
  Started, not_needed, no_gpu, not_created, not_started, mining, start-Started,
}
use worldland_sdk.Rental.Interfaces.{DockerService}

pub data Event (W : Type 0) : Type 0 where
  starts : Context → Event W
  stops : Context → Event W
  pauses : Context → List String → Event W
  resumes : Context → List String → Event W
  restarts : Event W
  ticks : Context → Event W
  passes : ℕ → W → Event W

module _ {W : Type 0} (docker : DockerService W) where
  unfoldable pub step : MiningDaemon W → Event W → MiningDaemon W
  step m (starts ctx) = (start docker ctx m).1
  step m (stops ctx) = (stop docker ctx m).1
  step m (pauses ctx gpus) = (pause_for_rental docker ctx gpus m).1
  step m (resumes ctx gpus) = (resume_after_rental docker ctx gpus m).1
  step m restarts = restart docker m
  step m (ticks ctx) = monitor docker ctx m
  step m (passes d world) = record m {
    machine = record { clock = m.machine.clock + d; world = world };
  }

  unfoldable pub run : MiningDaemon W → List (Event W) → MiningDaemon W
  run m [] = m
  run m (e ∷ es) = run (step m e) es

-- The fields of the daemon agree with its state.
pub record Inv {W : Type 0} (m : MiningDaemon W) : Type 0 where
  pub idle_empty : is_running m.state ≡ false → m.container_id ≡ ""
  pub paused_dated : is_some m.paused_at ≡ is_paused m.state
  pub running_dated : is_running m.state ≡ true → is_some m.started_at ≡ true
  pub running_enabled : is_running m.state ≡ true → m.config.enabled ≡ true

pub new-Inv :
    {W : Type 0} (machine : Machine W) (config : MiningConfig)
    → Inv (new_mining_daemon machine config)
unfolding new_mining_daemon
new-Inv machine config = ground arith

pub Inv-machine :
    {W : Type 0} (machine : Machine W) (m : MiningDaemon W)
    → Inv m
    → Inv (record m { machine = machine })
Inv-machine machine m v = ground arith

module _ {W : Type 0} (docker : DockerService W) where
  Started-Inv :
      {ctx : Context} {m : MiningDaemon W} {r : Result (Unit {0}) × MiningDaemon W}
      → Started docker ctx m r
      → Inv m
      → Inv r.1
  Started-Inv (not_needed why e) v = rw e v
  Started-Inv (no_gpu on idle free e) v = rw e (ground arith)
  Started-Inv (not_created gpu x n on idle free said e) v = rw e (ground arith)
  Started-Inv (not_started gpu id x n n' on idle free made said e) v = rw e (ground arith)
  Started-Inv (mining gpu id n n' on idle free made begun e) v = rw e (ground arith)

  pub start-Inv : (ctx : Context) (m : MiningDaemon W) → Inv m → Inv (start docker ctx m).1
  start-Inv ctx m v = Started-Inv (start-Started docker ctx m) v

  pub stop-Inv : (ctx : Context) (m : MiningDaemon W) → Inv m → Inv (stop docker ctx m).1
  unfolding stop
  stop-Inv ctx m v = ground arith

  pub pause-Inv :
      (ctx : Context) (gpus : List String) (m : MiningDaemon W)
      → Inv m
      → Inv (pause_for_rental docker ctx gpus m).1
  unfolding pause_for_rental
  pause-Inv ctx gpus m v = ground arith

  pub resume-Inv :
      (ctx : Context) (gpus : List String) (m : MiningDaemon W)
      → Inv m
      → Inv (resume_after_rental docker ctx gpus m).1
  unfolding resume_after_rental
  resume-Inv ctx gpus m v = ground (
    arith,
    start-Inv ctx (record m { paused_gpus = unmark_all gpus m.paused_gpus }) (ground arith),
  )

  pub restart-Inv : (m : MiningDaemon W) → Inv m → Inv (restart docker m)
  unfolding restart
  restart-Inv m v = ground (
    arith,
    start-Inv (with_timeout m.machine.clock (30 * second)) (record m { restarts = m.restarts - 1 })
        (ground arith),
  )

  revive-Inv :
      (r : Result ContainerInfo) (m : MiningDaemon W)
      → is_running m.state ≡ true
      → Inv m
      → Inv (revive docker (r, m))
  revive-Inv r m up v = ground (
    arith,
    start-Inv (with_timeout m.machine.clock (30 * second))
        (record m { container_id = ""; state = stopped }) (ground arith),
  )

  pub monitor-Inv : (ctx : Context) (m : MiningDaemon W) → Inv m → Inv (monitor docker ctx m)
  unfolding monitor
  monitor-Inv ctx m v =
      let (r, machine) = docker.inspect_container ctx m.container_id m.machine in
      ground (arith, revive-Inv r (record m { machine = machine }))

  step-Inv : (m : MiningDaemon W) (e : Event W) → Inv m → Inv (step docker m e)
  unfolding step
  step-Inv m (starts ctx) v = start-Inv ctx m v
  step-Inv m (stops ctx) v = stop-Inv ctx m v
  step-Inv m (pauses ctx gpus) v = pause-Inv ctx gpus m v
  step-Inv m (resumes ctx gpus) v = resume-Inv ctx gpus m v
  step-Inv m restarts v = restart-Inv m v
  step-Inv m (ticks ctx) v = monitor-Inv ctx m v
  step-Inv m (passes d world) v = ground arith

  run-Inv : (m : MiningDaemon W) (es : List (Event W)) → Inv m → Inv (run docker m es)
  unfolding run
  run-Inv m [] v = v
  run-Inv m (e ∷ es) v = run-Inv (step docker m e) es (step-Inv m e v)

  -- In every history of a new daemon: there is no container unless mining runs, the daemon has an
  -- instant of pausing exactly while it is paused, and mining that runs has an instant of starting
  -- and is enabled.
  pub run-new-Inv :
      (machine : Machine W) (config : MiningConfig) (es : List (Event W))
      → Inv (run docker (new_mining_daemon machine config) es)
  run-new-Inv machine config es = run-Inv _ es (new-Inv machine config)

-- The ticks of the loop up to the end of its context or of the daemon.
abbrev pub ticks_of : {W : Type 0} → Context → List Signal → List (Event W)
ticks_of ctx [] = []
ticks_of ctx (cancelled ∷ signals) = []
ticks_of ctx (closed ∷ signals) = []
ticks_of ctx (ticked ∷ signals) = ticks ctx ∷ ticks_of ctx signals

-- `MonitorLoop` is a history of ticks, the ones before its context is done or the daemon is closed,
-- so that what every history keeps, the loop keeps.
pub monitor_loop-run :
    {W : Type 0} (docker : DockerService W) (ctx : Context) (signals : List Signal)
    (m : MiningDaemon W)
    → monitor_loop docker ctx signals m ≡ run docker m (ticks_of ctx signals)
unfolding monitor_loop run step
monitor_loop-run docker ctx [] m = refl
monitor_loop-run docker ctx (cancelled ∷ signals) m = refl
monitor_loop-run docker ctx (closed ∷ signals) m = refl
monitor_loop-run docker ctx (ticked ∷ signals) m =
    monitor_loop-run docker ctx signals (monitor docker ctx m)
