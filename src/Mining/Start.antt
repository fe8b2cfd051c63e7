-- ===== src/Mining/Start.antt =====
-- `Start` of internal/mining/daemon.go: its outcomes.
use worldland_sdk.Base.{
  none, some, ◌≡◌, refl, ◌⊎◌, inl, inr, String, true, false, List, [], ◌∷◌, String-eq, Bool-cases,
}
use worldland_sdk.Go.Errors.{GoError, Result, ok, err, wrap}
use worldland_sdk.Go.Context.{Context}
use worldland_sdk.Go.Machine.{Machine}
use worldland_sdk.Mining.{
  MiningDaemon, available_gpus, start, start_on, launch, mining_container, is_running, running,
  paused,
}
use worldland_sdk.Mining.Free.{NoneFree, FirstFree, available_of-NoneFree, available_of-FirstFree}
use worldland_sdk.Rental.Interfaces.{DockerService}

module _ {W : Type 0} (docker : DockerService W) where
  -- Nothing but the machine has changed.
  abbrev pub only_machine : MiningDaemon W → Machine W → MiningDaemon W
  only_machine m machine = record m { machine = machine }

  -- The outcomes of a start in the state `m`.
  pub data Started (ctx : Context) (m : MiningDaemon W) (r : Result (Unit {0}) × MiningDaemon W)
      : Type 0 where
    not_needed :
        (m.config.enabled ≡ false) ⊎ (is_running m.state ≡ true) → r ≡ (ok tt, m) → Started ctx m r
    no_gpu :
        m.config.enabled ≡ true
        → is_running m.state ≡ false
        → NoneFree m.paused_gpus m.config.gpu_device_ids
        → r ≡ (ok tt, record m { state = paused; paused_at = some m.machine.clock })
        → Started ctx m r
    not_created :
        (gpu : String) (e : GoError) (n : Machine W)
        → m.config.enabled ≡ true
        → is_running m.state ≡ false
        → FirstFree m.paused_gpus m.config.gpu_device_ids gpu
        → docker.create_container ctx (mining_container m.config gpu) m.machine ≡ (err e, n)
        → r ≡ (err (wrap "failed to create mining container" e), only_machine m n)
        → Started ctx m r
    not_started :
        (gpu id : String) (e : GoError) (n n' : Machine W)
        → m.config.enabled ≡ true
        → is_running m.state ≡ false
        → FirstFree m.paused_gpus m.config.gpu_device_ids gpu
        → docker.create_container ctx (mining_container m.config gpu) m.machine ≡ (ok id, n)
        → docker.start_container ctx id n ≡ (err e, n')
        → r ≡ (
          err (wrap "failed to start mining container" e),
          only_machine m (docker.remove_container ctx id true n').1,
        )
        → Started ctx m r
    mining :
        (gpu id : String) (n n' : Machine W)
        → m.config.enabled ≡ true
        → is_running m.state ≡ false
        → FirstFree m.paused_gpus m.config.gpu_device_ids gpu
        → docker.create_container ctx (mining_container m.config gpu) m.machine ≡ (ok id, n)
        → docker.start_container ctx id n ≡ (ok tt, n')
        → r ≡ (
          ok tt,
          record m {
            machine = n';
            container_id = id;
            state = running;
            started_at = some n'.clock;
            paused_at = none;
          },
        )
        → Started ctx m r

  module _ (ctx : Context) (m : MiningDaemon W) (enabled : m.config.enabled ≡ true)
      (idle : is_running m.state ≡ false) where
    launch-Started :
        (gpu : String)
        → FirstFree m.paused_gpus m.config.gpu_device_ids gpu
        → Started ctx m (launch docker ctx gpu m)
    launch-Started gpu free =
        go (docker.create_container ctx (mining_container m.config gpu) m.machine) refl
      where
        begun :
            (id : String) (n : Machine W) (x : Result (Unit {0}) × Machine W)
            → docker.create_container ctx (mining_container m.config gpu) m.machine ≡ (ok id, n)
            → docker.start_container ctx id n ≡ x
            → Started ctx m (launch docker ctx gpu m)
        begun id n (ok done, n') made e =
            rw (made, e) (mining gpu id n n' enabled idle free made e refl)
        begun id n (err x, n') made e =
            rw (made, e) (not_started gpu id x n n' enabled idle free made e refl)

        go :
            (x : Result String × Machine W)
            → docker.create_container ctx (mining_container m.config gpu) m.machine ≡ x
            → Started ctx m (launch docker ctx gpu m)
        go (ok id, n) e = begun id n _ e refl
        go (err x, n) e = rw e (not_created gpu x n enabled idle free e refl)

    start_on-Started :
        (gpus : List String) → available_gpus m ≡ gpus → Started ctx m (start_on docker ctx gpus m)
    unfolding available_gpus
    start_on-Started [] free = no_gpu enabled idle (available_of-NoneFree _ _ free) refl
    start_on-Started (gpu ∷ gpus) free =
        launch-Started gpu (available_of-FirstFree m.paused_gpus _ gpus gpu free)

  -- A start of mining does nothing where mining is off or already runs; it pauses where no GPU is
  -- free: where each configured GPU is rented or, if none is configured, one is in the table of the
  -- rented; where Docker fails it leaves the daemon as it was, and removes the container if one was
  -- made; else the container that runs since that instant is the one it made for the first configured
  -- GPU that is not rented, or for all of them if none is configured and the table is empty.
  pub start-Started : (ctx : Context) (m : MiningDaemon W) → Started ctx m (start docker ctx m)
  unfolding start
  start-Started ctx m = elim (Bool-cases m.config.enabled) [
    | inr off ↦ simp off (not_needed (inl off) refl)
    | inl enabled ↦ simp enabled (elim (Bool-cases (is_running m.state)) [
      | inl up ↦ simp up (not_needed (inr up) refl)
      | inr idle ↦ simp idle (start_on-Started ctx m enabled idle (available_gpus m) refl)
    ])
  ]
