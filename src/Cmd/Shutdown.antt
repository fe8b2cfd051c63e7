-- ===== src/Cmd/Shutdown.antt =====
-- The graceful shutdown at the end of `main` in cmd/node/main.go: mining first, then the daemon with
-- its connection, then the server of the API. The goroutines of the node run on meanwhile.
use worldland_sdk.Base.{◌*◌, String}
use worldland_sdk.Go.Errors.{ignoring}
use worldland_sdk.Go.Context.{with_timeout, second}
use worldland_sdk.Go.Machine.{Outside, perform}
use worldland_sdk.Go.Json.{Float64}
use worldland_sdk.Rental.Interfaces.{DockerService, PortPool}
use worldland_sdk.Mining.{MiningDaemon}
use worldland_sdk.Mining
use worldland_sdk.Node.Hub.{Linked, stop}
use worldland_sdk.Node.System.{on_mines}
use worldland_sdk.Mtls.{Network, Phase}

-- The calls of the shutdown that others can come between: each is named by the one before it.
pub data Gap : Type 0 where
  mining_closed mining_stopped daemon_stopped : Gap

module _ {W P F : Type 0} (docker : DockerService W) (pool : PortPool P) (float : Float64 F)
    (dial : Outside W String) (net : Network W F) (server_shutdown : Outside W (Unit {0})) where
  abbrev pub State : Type 0
  State = Phase × Linked W P

  -- miningDaemon.Close()
  abbrev pub close_mining : State → State
  close_mining (phase, c) = (phase, on_mines Mining.close c)

  abbrev stop_within : MiningDaemon W → MiningDaemon W
  stop_within m = ignoring (Mining.stop docker (with_timeout m.machine.clock (10 * second)) m)

  -- miningDaemon.Stop(shutdownMiningCtx)
  abbrev pub stop_mining : State → State
  stop_mining (phase, c) = (phase, on_mines stop_within c)

  -- daemon.Stop()
  abbrev pub stop_daemon : State → State
  stop_daemon (phase, c) = (phase, stop docker pool float dial net c)

  abbrev pub stop_server : State → State
  stop_server (phase, c) =
      (phase, record c { machine = ignoring (perform server_shutdown c.machine) })

  -- `meanwhile` is what the goroutines of the node do in a gap between two calls.
  unfoldable pub shut_down : (Gap → State → State) → State → State
  shut_down meanwhile l = stop_server (
      meanwhile daemon_stopped (
        stop_daemon
          (meanwhile mining_stopped (stop_mining (meanwhile mining_closed (close_mining l))))))
