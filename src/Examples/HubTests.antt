-- ===== src/Examples/HubTests.antt =====
-- The daemon of Examples/NodeTests.antt on the connection of Examples/StartupTests.antt.
use worldland_sdk.Base.{
  ℕ, ◌+◌, ◌⊎◌, true, ltb, if◌then◌else◌, arith, ◌≡◌, refl, String-eq, none, some, Option, List, [],
  ◌∷◌,
}
use worldland_sdk.Go.Context.{background}
use worldland_sdk.Go.Machine.{Machine}
use worldland_sdk.Port.{PortManager}
use worldland_sdk.Rental.Wiring.{port_pool}
use worldland_sdk.Mining.{
  MiningDaemon, MiningState, new_mining_daemon, resume_after_rental, start, close, available_gpus,
}
use worldland_sdk.Mining
use worldland_sdk.Mining.Rented.{unmark_all}
use worldland_sdk.Mining.Config.{default_mining_config}
use worldland_sdk.Mining.History.{new-Inv}
use worldland_sdk.Mining.Resume.{Mines, over, given_back, resume-Mines}
use worldland_sdk.Gpu.{GpuMetrics}
use worldland_sdk.Node.Heartbeat.{heartbeat_value}
use worldland_sdk.Node.Heartbeat.Told.{Tells, heartbeat_value-Tells}
use worldland_sdk.Node.Hub.{Linked, hub_round, on_command, stop}
use worldland_sdk.Mining.Free.{NoneFree}
use worldland_sdk.Node.Keeps.{Healthy}
use worldland_sdk.Node.Replies.{Replied, hub_round-Replied}
use worldland_sdk.Node.System.Safety.{Reach-Healthy}
use worldland_sdk.Mtls.{Network, waiting, rounds, ended}
use worldland_sdk.Mtls
use worldland_sdk.Mtls.{Phase}
use worldland_sdk.Node.System.{on_mines}
use worldland_sdk.Node.{with_mining_daemon, with_rental_executor, new_node_daemon}
use worldland_sdk.Cmd.Shutdown.{Gap, mining_stopped, shut_down}
use worldland_sdk.Cmd.Routes.{HttpRequest}
use worldland_sdk.Node.Ends.{Unblocks, stop-Ended}
use worldland_sdk.Go.Errors.{ok, err, text}
use worldland_sdk.Go.Map.{delete}
use worldland_sdk.Container.{create_container, ensure_image, start_container}
use worldland_sdk.Rental.Wiring.{docker_service}
use worldland_sdk.Cmd.Startup.Safe.{Ready-Healthy, started-Ready}
use worldland_sdk.Examples.World.{machine, float, dial, says}
use worldland_sdk.Examples.MtlsTests.{ping}
use worldland_sdk.Examples.NodeTests.{node}
use worldland_sdk.Examples.StartupTests.{
  docker, net, conn, encoding, platform, flags, running, renting, runs, starts, linked_at,
}

abbrev miner : MiningDaemon ℕ
miner = new_mining_daemon machine default_mining_config

abbrev linked : Linked ℕ PortManager
linked = record { machine = machine; conn = some conn; stop_at = none; app = node }

abbrev metrics : List GpuMetrics
metrics =
    record {
      uuid = "GPU-0";
      name = "A100";
      memory_total = 40960;
      memory_used = 512;
      gpu_util = 3;
      memory_util = 4;
      temperature = 40;
    }
    ∷ []

Reach-Healthy_example : Healthy docker port_pool float dial renting.1.app
Reach-Healthy_example = Reach-Healthy docker port_pool float dial net encoding runs (
    Ready-Healthy platform flags machine running
      (started-Ready platform flags machine linked_at running starts))

heartbeat_value-Tells_example :
    Tells encoding metrics (some miner) (heartbeat_value encoding metrics (some miner))
heartbeat_value-Tells_example =
    heartbeat_value-Tells encoding metrics (some miner) (new-Inv machine default_mining_config)

abbrev has_read : Machine ℕ
has_read = record { clock = 1001; world = 0 }

hub_round-Replied_example :
    Replied docker port_pool float dial net conn ping has_read linked
      (hub_round docker port_pool float dial net (waiting conn, linked))
hub_round-Replied_example =
    hub_round-Replied docker port_pool float dial net conn linked "ping" has_read ping refl refl

-- A hub that says nothing: a read waits until the connection is closed.
abbrev silent : Network ℕ ℕ
silent = record net {
  read = λ conn w.
      if ltb w 1000
      then none
      else some (record { result = err (text "closed"); took = 0; world = w });
  close = λ conn w. record { result = ok tt; took = 1; world = w + 1000 };
}

silent-Unblocks : Unblocks silent
silent-Unblocks conn w = (
  text "closed",
  record { result = err (text "closed"); took = 0; world = w + 1000 },
  ground arith,
  refl,
)

stop-Ended_example :
    ((stop docker port_pool float dial silent linked).app.is_closed ≡ true)
    × ((rounds silent
          (some (on_command docker port_pool float dial))
          none
          2
          (waiting conn, stop docker port_pool float dial silent linked)).0
        ≡ ended)
stop-Ended_example =
    stop-Ended docker port_pool float dial silent (waiting conn) linked 0 silent-Unblocks
      (λ c at. ground (arith, at))

abbrev returned : MiningDaemon ℕ
returned = (resume_after_rental docker background ("0" ∷ []) (over docker background miner)).1

starts_again :
    (resume_after_rental docker background ("0" ∷ []) (over docker background miner)).0 ≡ ok tt
unfolding resume_after_rental Mining.stop close new_mining_daemon default_mining_config start
    available_gpus unmark_all docker_service create_container ensure_image start_container delete
starts_again = refl

is_enabled : miner.config.enabled ≡ true
unfolding new_mining_daemon default_mining_config
is_enabled = refl

resume-Mines_example :
    NoneFree
      (given_back docker ("0" ∷ []) (over docker background miner)).paused_gpus
      (over docker background miner).config.gpu_device_ids
    ⊎ Mines docker background (given_back docker ("0" ∷ []) (over docker background miner)) returned
resume-Mines_example =
    resume-Mines docker background background ("0" ∷ []) miner is_enabled starts_again

-- What a command to stop a rental does to mining when it comes between the calls of the shutdown.
abbrev late_stop : Gap → Phase × Linked ℕ PortManager → Phase × Linked ℕ PortManager
late_stop mining_stopped (phase, c) =
    (phase, on_mines (λ m. (resume_after_rental docker background [] m).1) c)
late_stop gap l = l

abbrev shut : Phase × Linked ℕ PortManager
shut = shut_down docker port_pool float dial silent (says tt) late_stop (waiting conn, linked)

abbrev mining_state : Option (MiningDaemon ℕ) → Option MiningState
mining_state none = none
mining_state (some m) = some m.state

mines_on : mining_state shut.1.app.mining_daemon ≡ some MiningState.running
unfolding shut_down stop Mtls.close close Mining.stop resume_after_rental new_mining_daemon
    default_mining_config start available_gpus unmark_all docker_service create_container
    ensure_image start_container with_mining_daemon with_rental_executor new_node_daemon
mines_on = refl

abbrev get : HttpRequest
get = record {
  path = "/rentals/stop";
  method = "GET";
  context = background;
  body = "{}";
  session_id = "";
}
