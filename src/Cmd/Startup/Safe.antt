-- ===== src/Cmd/Startup/Safe.antt =====
-- The node that cmd/node/main.go starts, in every state that it reaches.
use worldland_sdk.Base.{
  ◌≡◌, sym, subst, String, String-eq, not, ◌&&◌, Option, none, some, IfAny, Bool-cases, inl, inr,
  arith,
}
use worldland_sdk.Go.Errors.{ok}
use worldland_sdk.Go.Outcome.{IfOk}
use worldland_sdk.Go.Map.{lookup}
use worldland_sdk.Go.Machine.{Machine}
use worldland_sdk.Container.Client.{DockerClient}
use worldland_sdk.Port.{PortManager}
use worldland_sdk.Rental.{RentalExecutor, RentalState}
use worldland_sdk.Rental.History.{IsConsistent, new-IsConsistent}
use worldland_sdk.Rental.Wiring.{port_pool, docker_service, node_executor}
use worldland_sdk.Mining.{MiningDaemon}
use worldland_sdk.Mining.History.{Inv, new-Inv}
use worldland_sdk.Gpu.Providers.{GpuProvider}
use worldland_sdk.Node.{NodeDaemon, new_node_daemon, with_rental_executor, with_mining_daemon}
use worldland_sdk.Node.Heartbeat.{Encoding}
use worldland_sdk.Node.Keeps.{Healthy}
use worldland_sdk.Node.System.{Reach}
use worldland_sdk.Node.System.Safety.{Reach-Healthy}
use worldland_sdk.Mtls.{Phase, entering}
use worldland_sdk.Node.Hub.{Linked}
use worldland_sdk.Cmd.Flags.{Flags}
use worldland_sdk.Cmd.{Registration}
use worldland_sdk.Cmd.Startup.{Platform, Running, wired, prepare_mining, start_up}
use worldland_sdk.Cmd.Startup.Ready.{Ready, registration, start_up-Ready}

module _ {W K C R F : Type 0} (on : Platform W K C R F) where
  abbrev Well : DockerClient W → NodeDaemon W PortManager → Type 0
  Well docker d = Healthy (docker_service docker on.backoff) port_pool on.float on.dial d

  prepare_mining-Inv :
      (flags : Flags) (reg : Registration) (wallet_address : String) (m : Machine W)
      → IfAny Inv (prepare_mining on flags reg wallet_address m).0
  unfolding prepare_mining
  prepare_mining-Inv flags reg wallet_address m =
      elim (Bool-cases (flags.enable_mining && not reg.is_cpu_node)) [
        | inl e ↦ rw e (new-Inv _ _)
        | inr e ↦ rw e tt
      ]

  wired-Healthy :
      (docker : DockerClient W) (flags : Flags) (node_id : String) (provider : GpuProvider W)
      (mining : Option (MiningDaemon W)) (m : Machine W)
      → IfAny Inv mining
      → Well docker (wired on flags node_id provider mining m)
  unfolding wired new_node_daemon with_rental_executor with_mining_daemon node_executor
  wired-Healthy docker flags node_id provider none m v = record {
    rentals = new-IsConsistent (docker_service docker on.backoff) port_pool m _ _;
    mines = tt;
  }
  wired-Healthy docker flags node_id provider (some mining) m v = record {
    rentals = new-IsConsistent (docker_service docker on.backoff) port_pool m _ _;
    mines = v;
  }

  pub Ready-Healthy :
      (flags : Flags) (m : Machine W) (r : Running W C R)
      → Ready on flags m r
      → Well r.docker r.link.app
  Ready-Healthy flags m r ready =
      let (mining, at) = prepare_mining on flags (registration on flags m) ready.wallet ready.at in
      subst (Well r.docker) (sym ready.wiring) (
        wired-Healthy r.docker flags r.identity.node_id ready.provider mining at
          (prepare_mining-Inv flags (registration on flags m) ready.wallet ready.at))

  pub started-Ready :
      (flags : Flags) (m m' : Machine W) (r : Running W C R)
      → start_up on flags m ≡ (ok r, m')
      → Ready on flags m r
  started-Ready flags m m' r e =
      subst (IfOk (λ r' n. Ready on flags m r')) e (start_up-Ready on flags m)

  -- The node that has started runs into the state.
  abbrev pub RunsTo : Encoding → Flags → Running W C R → Phase × Linked W PortManager → Type 0
  RunsTo encoding flags r l =
      Reach (docker_service r.docker on.backoff) port_pool on.float on.dial
        (on.network flags.hub_addr r.identity.certificate r.identity.roots) encoding
        (entering, r.link) l

  -- Whatever happens to a node that has started, in whatever order, no two sessions of its executor
  -- are tracked on one port, if no session is stopped again while its cleanup is under way.
  pub start_up-ports_distinct :
      (encoding : Encoding) (flags : Flags) (m m' : Machine W) (r : Running W C R)
      (l : Phase × Linked W PortManager) (re : RentalExecutor W PortManager) (s s' : String)
      (state state' : RentalState)
      → start_up on flags m ≡ (ok r, m')
      → RunsTo encoding flags r l
      → l.1.app.rental_executor ≡ some re
      → lookup s re.active ≡ some state
      → lookup s' re.active ≡ some state'
      → state.ssh_port ≡ state'.ssh_port
      → s ≡ s'
  start_up-ports_distinct encoding flags m m' r l re s s' state state' started runs there h h'
        same =
      let docker = docker_service r.docker on.backoff in
      let healthy =
        Reach-Healthy docker port_pool on.float on.dial
          (on.network flags.hub_addr r.identity.certificate r.identity.roots) encoding runs
          (Ready-Healthy flags m r (started-Ready flags m m' r started)) in
      let v : IsConsistent docker port_pool re =
        subst (IfAny (IsConsistent docker port_pool)) there healthy.rentals in
      ground (arith, v.holds_port s state h, v.holds_port s' state' h')
