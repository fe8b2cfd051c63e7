-- ===== src/Cmd/Startup/Flagged.antt =====
-- What cmd/node/main.go makes the daemon of, by its flags and the GPU that it found.
use worldland_sdk.Base.{
  ◌≡◌, refl, ◌*◌, IfAny, String, true, not, ◌&&◌, Option, none, some, ◌==◌, String-eq, Bool-cases,
  inl, inr, if◌then◌else◌,
}
use worldland_sdk.Go.Errors.{Result-cases}
use worldland_sdk.Go.Outcome.{IfOk}
use worldland_sdk.Go.Machine.{Machine}
use worldland_sdk.Go.Context.{minute}
use worldland_sdk.Port.{PortManager, new_port_manager}
use worldland_sdk.Rental.{new_rental_executor}
use worldland_sdk.Rental.Wiring.{node_executor}
use worldland_sdk.Mining.{MiningDaemon, new_mining_daemon}
use worldland_sdk.Gpu.Providers.{GpuProvider}
use worldland_sdk.Node.{NodeDaemon, new_node_daemon, with_rental_executor, with_mining_daemon}
use worldland_sdk.Cmd.{Registration, mining_config}
use worldland_sdk.Cmd.Flags.{Flags}
use worldland_sdk.Cmd.Startup.{Platform, choose_provider, cpu_provider, prepare_mining, wired}

module _ {W K C R F : Type 0} (on : Platform W K C R F) where
  -- Mining that is enabled, with the image and the directory of the flags, and has no container.
  abbrev pub Unstarted : Flags → MiningDaemon W → Type 0
  Unstarted flags d =
      (d.config.enabled ≡ true)
      × (d.config.image ≡ flags.mining_image)
      × (d.config.data_dir ≡ flags.mining_data_dir)
      × (d.container_id ≡ "")

  -- The daemon of a node with the flags, its registration and its name.
  pub record AsFlagged (flags : Flags) (reg : Registration) (id : String)
      (d : NodeDaemon W PortManager) : Type 0 where
    pub named_so : d.node_id ≡ id
    -- 30 minutes of grace for ports and containers.
    pub rents :
        (m : Machine W) × (d.rental_executor
          ≡ some (new_rental_executor m (new_port_manager 30000 32000 (30 * minute)) (30 * minute)))
    pub host : d.host_addr ≡ (if flags.host_addr == "" then "localhost" else flags.host_addr)
    pub measures : d.gpu_provider ≡ (if reg.is_cpu_node then cpu_provider else on.nvml)
    pub mining_so : IfAny (Unstarted flags) d.mining_daemon

  pub prepare_mining-flags :
      (flags : Flags) (reg : Registration) (wallet_address : String) (m : Machine W)
      → IfAny (Unstarted flags) (prepare_mining on flags reg wallet_address m).0
  unfolding prepare_mining new_mining_daemon mining_config
  prepare_mining-flags flags reg wallet_address m =
      elim (Bool-cases (flags.enable_mining && not reg.is_cpu_node)) [
        | inl e ↦ rw e (refl, refl, refl, refl)
        | inr e ↦ rw e tt
      ]

  pub wired-AsFlagged :
      (flags : Flags) (reg : Registration) (id : String) (provider : GpuProvider W)
      (mining : Option (MiningDaemon W)) (m : Machine W)
      → provider ≡ (if reg.is_cpu_node then cpu_provider else on.nvml)
      → IfAny (Unstarted flags) mining
      → AsFlagged flags reg id (wired on flags id provider mining m)
  unfolding wired new_node_daemon with_rental_executor with_mining_daemon node_executor
  wired-AsFlagged flags reg id provider none m e h = record {
    named_so = refl;
    rents = (m, refl);
    host = refl;
    measures = e;
    mining_so = tt;
  }
  wired-AsFlagged flags reg id provider (some d) m e h = record {
    named_so = refl;
    rents = (m, refl);
    host = refl;
    measures = e;
    mining_so = h;
  }

  pub choose_provider-chosen :
      (reg : Registration) (m : Machine W)
      → IfOk
          (λ provider m'. provider ≡ (if reg.is_cpu_node then cpu_provider else on.nvml))
          (choose_provider on reg m)
  unfolding choose_provider
  choose_provider-chosen reg m = elim (Bool-cases reg.is_cpu_node) [
    | inl e ↦ rw e refl
    | inr e ↦ rw e (elim (Result-cases (on.nvml.init m).0) [
      | inl (done, good) ↦ rw good refl
      | inr (x, bad) ↦ rw bad tt
    ])
  ]
