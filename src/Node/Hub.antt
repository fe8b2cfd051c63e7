-- ===== src/Node/Hub.antt =====
-- The daemon of internal/services/node_daemon.go on the client of the hub: `ConnectToHub`, `Start`,
-- `reportMetrics` and `Stop`. The client's callback is `handleCommand` of the daemon, which is the
-- state that the client's rounds carry with them. cmd/node/main.go connects before it starts the
-- daemon, so that there is a client whenever the loops run.
use worldland_sdk.Base.{String, Bool, true, none, some, List, [], ◌∷◌, if◌then◌else◌}
use worldland_sdk.Go.Errors.{Result, ok, err, Act, is_ok, ignoring}
use worldland_sdk.Go.Machine.{Machine, Outside}
use worldland_sdk.Go.Json.{Float64}
use worldland_sdk.Gpu.{GpuMetrics}
use worldland_sdk.Rental.Interfaces.{DockerService, PortPool}
use worldland_sdk.Node.{NodeDaemon, Command, CommandAck, handle_command}
use worldland_sdk.Node.Heartbeat.{Encoding, build_heartbeat}
use worldland_sdk.Mtls.{Network, Client, Phase, new_client, connect, round, send, close}

-- The daemon with its client.
abbrev pub Linked : Type 0 → Type 0 → Type 0
Linked W P = Client W (NodeDaemon W P)

-- What the `select` of `reportMetrics` receives.
pub data Wake : Type 0 where
  stop_received tick_received : Wake

module _ {W P F : Type 0} (docker : DockerService W) (pool : PortPool P) (float : Float64 F)
    (dial : Outside W String) where
  -- d.mtlsClient.OnCommand = d.handleCommand
  unfoldable pub on_command :
      Command F → NodeDaemon W P × Machine W → CommandAck F × (NodeDaemon W P × Machine W)
  on_command cmd (d, m) =
      let (ack, d') = handle_command docker pool float dial cmd (record d { machine = m }) in
      (ack, (d', d'.machine))

  module _ (net : Network W F) where
    -- `net` is the network to the address of the hub, with the certificate and the root CAs.
    unfoldable pub connect_to_hub : NodeDaemon W P → Result (Unit {0}) × Linked W P
    connect_to_hub d = connect net (some on_command) none (new_client d.machine d)

    unfoldable pub hub_round : Phase × Linked W P → Phase × Linked W P
    hub_round l = round net (some on_command) none l

    module _ (encoding : Encoding) where
      abbrev pub send_heartbeat : List GpuMetrics → Linked W P → Linked W P
      send_heartbeat metrics c =
          ignoring (
            send net (some on_command) none (build_heartbeat encoding metrics c.app.mining_daemon)
              c)

      abbrev pub collected : Result (List GpuMetrics) → Linked W P → Linked W P
      collected (err e) c = c
      collected (ok metrics) c = send_heartbeat metrics c

      -- case <-ticker.C
      unfoldable pub report_tick : Linked W P → Linked W P
      report_tick c =
          let (r, m) = c.app.gpu_provider.get_metrics c.machine in
          collected r (record c { machine = m })

      -- The rounds of `reportMetrics`, by what they receive.
      unfoldable pub report_metrics : List Wake → Linked W P → Linked W P
      report_metrics [] c = c
      report_metrics (stop_received ∷ wakes) c = c
      report_metrics (tick_received ∷ wakes) c = report_metrics wakes (report_tick c)

    abbrev shut_down : Bool → Linked W P → Linked W P
    shut_down initialised c =
        if initialised
        then record c { machine = ignoring (c.app.gpu_provider.shutdown c.machine) }
        else c

    -- `Start`, which returns once stopCh is closed; `meanwhile` is what its goroutines and the rest of
    -- the program do until then.
    unfoldable pub start : (Linked W P → Linked W P) → Act (Linked W P) (Unit {0})
    start meanwhile c =
        let (r, m) = c.app.gpu_provider.init c.machine in
        (ok tt, shut_down (is_ok r) (meanwhile (record c { machine = m })))

    -- The first `Stop`; a second one panics.
    unfoldable pub stop : Linked W P → Linked W P
    stop c = close net (some on_command) none (record c { app = record c.app { is_closed = true } })
