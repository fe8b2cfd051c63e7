-- ===== src/Mining/Resume.antt =====
-- `ResumeAfterRental` of internal/mining/daemon.go after `Close` and `Stop`, as in the shutdown of
-- cmd/node/main.go.
use worldland_sdk.Base.{◌≡◌, ◌⊎◌, inl, inr, refl, ap, ◌∙◌, String, true, List, String-eq, arith}
use worldland_sdk.Go.Errors.{Result, ok}
use worldland_sdk.Go.Context.{Context}
use worldland_sdk.Go.Machine.{Machine}
use worldland_sdk.Mining.{
  MiningDaemon, mining_container, running, start, stop, close, is_stopped, resume_after_rental,
}
use worldland_sdk.Mining.Free.{NoneFree, FirstFree}
use worldland_sdk.Mining.Rented.{unmark_all}
use worldland_sdk.Mining.Start.{
  Started, not_needed, no_gpu, not_created, not_started, mining, start-Started,
}
use worldland_sdk.Rental.Interfaces.{DockerService}

module _ {W : Type 0} (docker : DockerService W) where
  -- What a call that has restarted mining leaves behind: a new container that runs, and nobody who
  -- watches it.
  pub record Mines (ctx : Context) (before after : MiningDaemon W) : Type 0 where
    pub gpu : String
    pub free : FirstFree before.paused_gpus before.config.gpu_device_ids gpu
    pub between : Machine W
    pub made :
        docker.create_container ctx (mining_container before.config gpu) before.machine
        ≡ (ok after.container_id, between)
    pub begun : docker.start_container ctx after.container_id between ≡ (ok tt, after.machine)
    pub runs : after.state ≡ running
    pub unwatched : after.is_closed ≡ true

  Started-Mines :
      (ctx : Context) (m : MiningDaemon W) (r : Result (Unit {0}) × MiningDaemon W)
      → m.config.enabled ≡ true
      → is_stopped m.state ≡ true
      → m.is_closed ≡ true
      → r.0 ≡ ok tt
      → Started docker ctx m r
      → NoneFree m.paused_gpus m.config.gpu_device_ids ⊎ Mines ctx m r.1
  Started-Mines ctx m r on idle shut good (not_needed (inl off) e) =
      absurd (ground (arith, on, off))
  Started-Mines ctx m r on idle shut good (not_needed (inr up) e) =
      absurd (ground (arith, idle, up))
  Started-Mines ctx m r on idle shut good (no_gpu on' idle' taken e) = inl taken
  Started-Mines ctx m r on idle shut good (not_created gpu x n on' idle' free said e) = absurd cc
  Started-Mines ctx m r on idle shut good (not_started gpu id x n n' on' idle' free made said e) =
      absurd cc
  Started-Mines ctx m r on idle shut good (mining gpu id n n' on' idle' free made begun e) = inr (
      rw e (record {
        gpu = gpu;
        free = free;
        between = n;
        made = made;
        begun = begun;
        runs = refl;
        unwatched = shut;
      }))

  -- The daemon at the end of the shutdown of mining, and with the GPUs that are returned to it.
  abbrev pub over : Context → MiningDaemon W → MiningDaemon W
  over ctx m = (stop docker ctx (close m)).1

  abbrev pub given_back : List String → MiningDaemon W → MiningDaemon W
  given_back gpus m = record m { paused_gpus = unmark_all gpus m.paused_gpus }

  over-shut :
      (ctx : Context) (m : MiningDaemon W)
      → (is_stopped (over ctx m).state ≡ true)
        × ((over ctx m).is_closed ≡ true)
        × ((over ctx m).config ≡ m.config)
  unfolding stop close
  over-shut ctx m = (ground arith, ground arith, ground arith)

  resume-start :
      (ctx : Context) (gpus : List String) (d : MiningDaemon W)
      → is_stopped d.state ≡ true
      → resume_after_rental docker ctx gpus d ≡ start docker ctx (given_back gpus d)
  unfolding resume_after_rental
  resume-start ctx gpus d idle = ground (arith, idle)

  -- If mining is enabled and was closed and stopped, a return of GPUs that reports no error finds no
  -- GPU free, or mining runs once more, in a new container, with no loop that would watch it.
  pub resume-Mines :
      (ctx ctx' : Context) (gpus : List String) (m : MiningDaemon W)
      → m.config.enabled ≡ true
      → (resume_after_rental docker ctx' gpus (over ctx m)).0 ≡ ok tt
      → NoneFree (given_back gpus (over ctx m)).paused_gpus (over ctx m).config.gpu_device_ids
        ⊎ Mines ctx'
            (given_back gpus (over ctx m))
            (resume_after_rental docker ctx' gpus (over ctx m)).1
  resume-Mines ctx ctx' gpus m on good =
      let (idle, shut, same) = over-shut ctx m in
      let starts = resume-start ctx' gpus (over ctx m) idle in
      rw starts (
        Started-Mines ctx' (given_back gpus (over ctx m)) _ (ap (λ c. c.enabled) same ∙ on) idle
          shut (rw starts at good) (start-Started docker ctx' (given_back gpus (over ctx m))))
