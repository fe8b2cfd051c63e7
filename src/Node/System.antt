-- ===== src/Node/System.antt =====
-- The running node: the goroutines of cmd/node/main.go and internal/services/node_daemon.go over one
-- daemon, a round at a time and in any order. A round of the connection, a heartbeat, a request, a
-- cleanup and a tick of mining each run from start to end; a round in which nothing has arrived leaves
-- the connection waiting.
pub mod Safety
use worldland_sdk.Base.{ℕ, ◌+◌, ◌*◌, ◌≡◌, String, Bool, true, Option, none, some, All, IfAny}
use worldland_sdk.Go.Errors.{Result, ok, err, ignoring}
use worldland_sdk.Go.Context.{Context, background}
use worldland_sdk.Go.Machine.{Machine, Outside, perform}
use worldland_sdk.Go.Json.{Float64}
use worldland_sdk.Rental.{RentalExecutor}
use worldland_sdk.Rental.Interfaces.{DockerService, PortPool}
use worldland_sdk.Rental.History.{woken, pick}
use worldland_sdk.Rental.Pending.{OtherSession}
use worldland_sdk.Mining.{MiningDaemon, restart, monitor}
use worldland_sdk.Mining
use worldland_sdk.Api.{Request, StartBody, handle_start_rental, handle_stop_rental}
use worldland_sdk.Node.{NodeDaemon, Command}
use worldland_sdk.Node.Heartbeat.{Encoding}
use worldland_sdk.Node.Hub.{Linked, hub_round, report_tick}
use worldland_sdk.Node.Keeps.{IsFirstStop}
use worldland_sdk.Mtls.{Network, Conn, Phase, waiting, read_at}

module _ {W P : Type 0} where
  abbrev pub with_rentals :
      (RentalExecutor W P → RentalExecutor W P)
      → Option (RentalExecutor W P)
      → Linked W P
      → Linked W P
  with_rentals f none c = c
  with_rentals f (some re) c =
      let re' = f (record re { machine = c.machine }) in
      record c {
        machine = re'.machine;
        app = record c.app { machine = re'.machine; rental_executor = some re' };
      }

  -- A call of the executor by another goroutine than that of the connection.
  abbrev pub on_rentals : (RentalExecutor W P → RentalExecutor W P) → Linked W P → Linked W P
  on_rentals f c = with_rentals f c.app.rental_executor c

  abbrev pub with_mines :
      (MiningDaemon W → MiningDaemon W) → Option (MiningDaemon W) → Linked W P → Linked W P
  with_mines f none c = c
  with_mines f (some m) c =
      let m' = f (record m { machine = c.machine }) in
      record c {
        machine = m'.machine;
        app = record c.app { machine = m'.machine; mining_daemon = some m' };
      }

  abbrev pub on_mines : (MiningDaemon W → MiningDaemon W) → Linked W P → Linked W P
  on_mines f c = with_mines f c.app.mining_daemon c

  abbrev pub pass : ℕ → W → Linked W P → Linked W P
  pass d world c = record c { machine = record { clock = c.machine.clock + d; world = world } }

module _ {W P : Type 0} (docker : DockerService W) (pool : PortPool P) where
  -- The goroutine of the `i`-th sleeping cleanup.
  abbrev pub cleanup_of : ℕ → RentalExecutor W P → RentalExecutor W P
  cleanup_of i re = woken docker pool (pick i re.pending) re

  abbrev pub serve_start :
      String → Request (Option StartBody) → RentalExecutor W P → RentalExecutor W P
  serve_start host r re = (handle_start_rental docker pool host r re).1

  abbrev pub serve_stop : Request (Option String) → RentalExecutor W P → RentalExecutor W P
  serve_stop r re = (handle_stop_rental docker pool r re).1

  -- The call of `Start` before the loop of mining.
  abbrev pub start_mining : MiningDaemon W → MiningDaemon W
  start_mining m = ignoring (Mining.start docker background m)

module _ {W P F : Type 0} (docker : DockerService W) (pool : PortPool P) (float : Float64 F)
    (dial : Outside W String) (net : Network W F) (encoding : Encoding) where
  abbrev pub State : Type 0
  State = Phase × Linked W P

  -- What the next round of the connection reads is no command to stop a session whose cleanup is
  -- under way.
  abbrev pub ReadsFirstStop : State → Type 0
  ReadsFirstStop l =
      (conn : Conn) (bytes : String) (m : Machine W) (cmd : Command F)
      → l.0 ≡ waiting conn
      → read_at net conn l.1.machine ≡ some (ok bytes, m)
      → net.unmarshal bytes ≡ some cmd
      → IsFirstStop docker pool float dial cmd l.1.app

  pub data Step (l : State) : State → Type 0 where
    listens : ReadsFirstStop l → Step l (hub_round docker pool float dial net l)
    reports : Step l (l.0, report_tick docker pool float dial net encoding l.1)
    cleans : (i : ℕ) → Step l (l.0, on_rentals (cleanup_of docker pool i) l.1)
    serves_start :
        (r : Request (Option StartBody))
        → Step l (l.0, on_rentals (serve_start docker pool l.1.app.host_addr r) l.1)
    serves_stop :
        (r : Request (Option String))
        → IfAny
            (λ (re : RentalExecutor W P). IfAny (λ s. All (OtherSession s) re.pending) r.body)
            l.1.app.rental_executor
        → Step l (l.0, on_rentals (serve_stop docker pool r) l.1)
    starts_mining : Step l (l.0, on_mines (start_mining docker pool) l.1)
    watches : Step l (l.0, on_mines (monitor docker background) l.1)
    restarts : Step l (l.0, on_mines (restart docker) l.1)
    passes : (d : ℕ) (world : W) → Step l (l.0, pass d world l.1)

  pub data Reach (l : State) : State → Type 0 where
    here : Reach l l
    later : {l' l'' : State} → Reach l l' → Step l' l'' → Reach l l''
