-- ===== src/Mining/Stranded.antt =====
-- `PauseForRental` of internal/mining/daemon.go where GPUs remain: the container is gone and the
-- state stays `running`, so that neither its goroutine nor the monitor starts mining again.
use worldland_sdk.Base.{◌≡◌, ◌≢◌, String, List, [], ◌∷◌, All, String-eq, text_iff, arith}
use worldland_sdk.Go.Context.{Context}
use worldland_sdk.Mining.{
  MiningDaemon, running, start, pause_for_rental, resume_after_rental, restart, monitor,
  available_gpus,
}
use worldland_sdk.Mining.Rented.{mark_all}
use worldland_sdk.Mining.History.{
  Event, starts, stops, pauses, resumes, restarts, ticks, passes, step, run,
}
use worldland_sdk.Rental.Interfaces.{DockerService}

pub record IsStranded {W : Type 0} (m : MiningDaemon W) : Type 0 where
  pub says_running : m.state ≡ running
  pub no_container : m.container_id ≡ ""

abbrev pub NoStop : {W : Type 0} → Event W → Type 0
NoStop (stops ctx) = ⊥
NoStop (starts ctx) = Unit {0}
NoStop (pauses ctx gpus) = Unit {0}
NoStop (resumes ctx gpus) = Unit {0}
NoStop restarts = Unit {0}
NoStop (ticks ctx) = Unit {0}
NoStop (passes d world) = Unit {0}

module _ {W : Type 0} (docker : DockerService W) where
  pause-IsStranded :
      (ctx : Context) (gpus : List String) (m : MiningDaemon W)
      → m.state ≡ running
      → m.container_id ≢ ""
      → available_gpus (record m { paused_gpus = mark_all gpus m.paused_gpus }) ≢ []
      → IsStranded (pause_for_rental docker ctx gpus m).1
  unfolding pause_for_rental available_gpus
  pause-IsStranded ctx gpus m up named left = ground (arith, text_iff m.container_id "")

  step-IsStranded :
      (m : MiningDaemon W) (e : Event W) → NoStop e → IsStranded m → IsStranded (step docker m e)
  unfolding step start pause_for_rental resume_after_rental restart monitor
  step-IsStranded m (starts ctx) h v = ground arith
  step-IsStranded m (stops ctx) h v = absurd h
  step-IsStranded m (pauses ctx gpus) h v = ground (arith, text_iff m.container_id "")
  step-IsStranded m (resumes ctx gpus) h v = ground arith
  step-IsStranded m restarts h v = ground arith
  step-IsStranded m (ticks ctx) h v = ground (arith, text_iff m.container_id "")
  step-IsStranded m (passes d world) h v = ground arith

  run-IsStranded :
      (m : MiningDaemon W) (es : List (Event W))
      → All NoStop es
      → IsStranded m
      → IsStranded (run docker m es)
  unfolding run
  run-IsStranded m [] h v = v
  run-IsStranded m (e ∷ es) h v =
      run-IsStranded (step docker m e) es h.1 (step-IsStranded m e h.0 v)

  -- Where mining ran in a container and a rental leaves it a GPU, there is no container any more in
  -- any history up to the next stop: not after the restart that the pause asks for, nor after ticks
  -- of the monitor, starts, pauses and the return of every GPU.
  pub pause-run-IsStranded :
      (ctx : Context) (gpus : List String) (m : MiningDaemon W) (es : List (Event W))
      → m.state ≡ running
      → m.container_id ≢ ""
      → available_gpus (record m { paused_gpus = mark_all gpus m.paused_gpus }) ≢ []
      → All NoStop es
      → IsStranded (run docker (pause_for_rental docker ctx gpus m).1 es)
  pause-run-IsStranded ctx gpus m es up named left no_stop =
      run-IsStranded _ es no_stop (pause-IsStranded ctx gpus m up named left)
