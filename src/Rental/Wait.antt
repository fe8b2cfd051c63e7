-- ===== src/Rental/Wait.antt =====
-- `waitForHealth` of internal/rental/executor.go: the loop that waits for a container.
use worldland_sdk.Base.{ℕ, zero, suc, ◌+◌, ◌/◌, String, ◌||◌, ltb, if◌then◌else◌, ◌==◌, String-eq}
use worldland_sdk.Go.Errors.{sentinel, text, wrap, container_not_healthy, Result, ok, err, Act}
use worldland_sdk.Go.Context.{Context, is_done}
use worldland_sdk.Go.Machine.{Machine, sleep}
use worldland_sdk.Container.{ContainerInfo, ◌<>◌}
use worldland_sdk.Rental.Interfaces.{DockerService}

-- What one round of `waitForHealth` makes of the container.
pub data Verdict : Type 0 where
  healthy unhealthy stopped waiting : Verdict

unfoldable pub verdict : ContainerInfo → Verdict
verdict info =
    if info.state == "running"
    then (if info.health == "" || info.health == "healthy"
        then healthy
        else if info.health == "starting"
        then waiting
        else if info.health == "unhealthy"
        then unhealthy
        else waiting)
    else if info.state == "exited" || info.state == "dead"
    then stopped
    else waiting

module _ {W : Type 0} (docker : DockerService W) where
  abbrev pub judged :
      (Machine W → Result (Unit {0}) × Machine W)
      → ContainerInfo
      → Verdict
      → Act (Machine W) (Unit {0})
  judged again info healthy m = (ok tt, m)
  judged again info unhealthy m = (err (sentinel container_not_healthy), m)
  judged again info stopped m =
      (err (text ("container stopped during startup: state=" <> info.state)), m)
  judged again info waiting m = again m

  abbrev pub inspected :
      (Machine W → Result (Unit {0}) × Machine W)
      → Result ContainerInfo × Machine W
      → Result (Unit {0}) × Machine W
  inspected again (err e, m) = (err (wrap "failed to inspect container" e), m)
  inspected again (ok info, m) = judged again info (verdict info) m

  -- The loop of `waitForHealth`, by fuel; that the fuel of `wait_for_health` never runs out is shown
  -- in Rental/Health.antt.
  unfoldable pub poll : ℕ → ℕ → ℕ → Context → String → Act (Machine W) (Unit {0})
  poll zero deadline interval ctx container_id m = (err (text "out of fuel"), m)
  poll (suc fuel) deadline interval ctx container_id m =
      let again =
        λ (n : Machine W). poll fuel deadline interval ctx container_id (sleep interval n) in
      if ltb deadline m.clock
      then (err (sentinel container_not_healthy), m)
      else if is_done ctx m.clock
      then (err (sentinel ctx.reason), m)
      else inspected again (docker.inspect_container ctx container_id m)

  unfoldable pub wait_for_health : ℕ → ℕ → Context → String → Act (Machine W) (Unit {0})
  wait_for_health timeout interval ctx container_id m =
      poll (timeout / interval + 2) (m.clock + timeout) interval ctx container_id m
