-- ===== src/Mining/Monitor.antt =====
-- `MonitorLoop` of internal/mining/daemon.go: what a tick makes of the daemon.
use worldland_sdk.Base.{
  ◌*◌, ◌≡◌, ◌≢◌, refl, ◌⊎◌, inl, inr, arith, false, ◌==◌, String-eq, Bool-cases, text_iff,
}
use worldland_sdk.Go.Errors.{Result, ok, err}
use worldland_sdk.Go.Context.{Context, with_timeout, second}
use worldland_sdk.Go.Machine.{Machine}
use worldland_sdk.Container.{ContainerInfo}
use worldland_sdk.Mining.{MiningDaemon, stopped, monitor, revive, is_running}
use worldland_sdk.Mining.Start.{Started, start-Started, only_machine}
use worldland_sdk.Rental.Interfaces.{DockerService}

module _ {W : Type 0} (docker : DockerService W) where
  -- The daemon without its container, which is what a tick restarts.
  abbrev pub bereft : MiningDaemon W → Machine W → MiningDaemon W
  bereft m machine = record m { machine = machine; container_id = ""; state = stopped }

  -- The outcomes of a tick in the state `m`.
  pub data Monitored (ctx : Context) (m : MiningDaemon W) (m' : MiningDaemon W) : Type 0 where
    not_mining : (is_running m.state ≡ false) ⊎ (m.container_id ≡ "") → m' ≡ m → Monitored ctx m m'
    alive :
        (info : ContainerInfo) (n : Machine W)
        → docker.inspect_container ctx m.container_id m.machine ≡ (ok info, n)
        → info.state ≡ "running"
        → m' ≡ only_machine docker m n
        → Monitored ctx m m'
    -- The container is gone, or it is seen not to run.
    revived :
        (answer : Result ContainerInfo) (n : Machine W) (r : Result (Unit {0}) × MiningDaemon W)
        → docker.inspect_container ctx m.container_id m.machine ≡ (answer, n)
        → ((info : ContainerInfo) → answer ≡ ok info → info.state ≢ "running")
        → Started docker (with_timeout n.clock (30 * second)) (bereft m n) r
        → m' ≡ r.1
        → Monitored ctx m m'

  down_not :
      (info seen : ContainerInfo)
      → ok info ≡ ok seen
      → seen.state ≡ "running"
      → info.state == "running" ≡ false
      → ⊥
  down_not info seen same runs down =
      ground (arith, same, runs, down, text_iff info.state "running")

  revive-Monitored :
      (ctx : Context) (m : MiningDaemon W) (answer : Result ContainerInfo) (n : Machine W)
      → docker.inspect_container ctx m.container_id m.machine ≡ (answer, n)
      → Monitored ctx m (revive docker (answer, only_machine docker m n))
  revive-Monitored ctx m (err e) n said =
      revived (err e) n _ said (λ info bad. absurd cc) (start-Started docker _ (bereft m n)) refl
  revive-Monitored ctx m (ok info) n said = elim (Bool-cases (info.state == "running")) [
    | inl up ↦ rw up (alive info n said ((text_iff info.state "running").0 up) refl)
    | inr down ↦ rw down (
        revived (ok info) n _ said (λ seen same runs. down_not info seen same runs down)
          (start-Started docker _ (bereft m n)) refl)
  ]

  -- A tick of `MonitorLoop` leaves a daemon alone that does not mine or has no container, and one
  -- whose container is seen to run; else, where the inspection fails or sees a container that does
  -- not run, mining starts anew, without that container.
  pub monitor-Monitored :
      (ctx : Context) (m : MiningDaemon W) → Monitored ctx m (monitor docker ctx m)
  unfolding monitor
  monitor-Monitored ctx m = elim (Bool-cases (is_running m.state)) [
    | inr idle ↦ simp idle (not_mining (inl idle) refl)
    | inl up ↦ elim (Bool-cases (m.container_id == "")) [
      | inl none_there ↦
          simp (up, none_there) (not_mining (inr ((text_iff m.container_id "").0 none_there)) refl)
      | inr named ↦ simp (up, named) (revive-Monitored ctx m _ _ refl)
    ]
  ]
