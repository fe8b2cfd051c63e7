-- ===== src/Node/Leak.antt =====
-- The GPUs that `NodeDaemon` of internal/services/node_daemon.go takes from mining for rentals: no
-- command gives one back.
use worldland_sdk.Base.{
  ◌*◌, ◌≡◌, refl, ap, ◌∙◌, inl, inr, String, Bool, true, false, not, ◌&&◌, ◌||◌, Option, none, some,
  List, [], ◌∷◌, ◌==◌, String-eq, text_iff, Bool-cases, is_some, arith,
}
use worldland_sdk.Go.Errors.{Result, ok, err}
use worldland_sdk.Go.Context.{Context, with_timeout, second, minute}
use worldland_sdk.Go.Map.{lookup}
use worldland_sdk.Go.Machine.{Outside}
use worldland_sdk.Go.Json.{Float64, as_string}
use worldland_sdk.Rental.{RentalExecutor, ConnectionInfo, StartRentalRequest, start_rental}
use worldland_sdk.Rental.Interfaces.{DockerService, PortPool}
use worldland_sdk.Mining.{MiningDaemon, pause_for_rental, resume_after_rental}
use worldland_sdk.Mining.Rented.{is_rented, mark_all, unmark_all}
use worldland_sdk.Mining.Start.{
  Started, not_needed, no_gpu, not_created, not_started, mining, start-Started,
}
use worldland_sdk.Mining.Gpus.{is_rented-mark_all}
use worldland_sdk.Node.{
  NodeDaemon, Command, on_executor, handle_command, handle_start_rental, handle_stop_rental,
  pause_mining, resume_mining, start_with, stop_with, report_start, report_stop, rental_request,
}

abbrev rented_by : {W : Type 0} → Option (MiningDaemon W) → String → Bool
rented_by none gpu = false
rented_by (some m) gpu = is_rented m.paused_gpus gpu

-- The node keeps the GPU from mining.
abbrev pub is_withheld : {W P : Type 0} → NodeDaemon W P → String → Bool
is_withheld d gpu = rented_by d.mining_daemon gpu

module _ {W : Type 0} (docker : DockerService W) where
  Started-paused_gpus :
      {ctx : Context} {m : MiningDaemon W} {r : Result (Unit {0}) × MiningDaemon W}
      → Started docker ctx m r
      → r.1.paused_gpus ≡ m.paused_gpus
  Started-paused_gpus (not_needed why e) = rw e
  Started-paused_gpus (no_gpu on idle free e) = rw e
  Started-paused_gpus (not_created gpu x n on idle free said e) = rw e
  Started-paused_gpus (not_started gpu id x n n' on idle free made said e) = rw e
  Started-paused_gpus (mining gpu id n n' on idle free made begun e) = rw e

  resume-paused_gpus :
      (ctx : Context) (m : MiningDaemon W)
      → (resume_after_rental docker ctx [] m).1.paused_gpus ≡ m.paused_gpus
  unfolding resume_after_rental unmark_all
  resume-paused_gpus ctx m = ground (arith, Started-paused_gpus (start-Started docker ctx m))

  pause-paused_gpus :
      (ctx : Context) (gpus : List String) (m : MiningDaemon W)
      → (pause_for_rental docker ctx gpus m).1.paused_gpus ≡ mark_all gpus m.paused_gpus
  unfolding pause_for_rental
  pause-paused_gpus ctx gpus m = ground arith

module _ {W P F : Type 0} (docker : DockerService W) (pool : PortPool P) (float : Float64 F)
    (dial : Outside W String) where
  withheld-report_start :
      (cmd : Command F) (r : Result ConnectionInfo) (d : NodeDaemon W P)
      → (report_start docker pool float dial cmd (r, d)).1.mining_daemon ≡ d.mining_daemon
  withheld-report_start cmd (ok info) d = ground arith
  withheld-report_start cmd (err e) d = refl

  withheld-pause :
      (named : String) (o : Option (MiningDaemon W)) (d : NodeDaemon W P) (gpu : String)
      → d.mining_daemon ≡ o
      → is_withheld (pause_mining docker pool float dial named o d) gpu
        ≡ (is_withheld d gpu || (not (named == "") && named == gpu && is_some o))
  withheld-pause named none d gpu e = ground arith
  withheld-pause named (some m) d gpu e = ground (
    arith,
    ap (λ rented. is_rented rented gpu)
        (pause-paused_gpus docker (with_timeout d.machine.clock (30 * second)) (named ∷ [])
          (record m { machine = d.machine })),
    is_rented-mark_all (named ∷ []) m.paused_gpus gpu,
  )

  withheld-resume :
      (o : Option (MiningDaemon W)) (d : NodeDaemon W P) (gpu : String)
      → d.mining_daemon ≡ o
      → is_withheld (resume_mining docker pool float dial o d) gpu ≡ is_withheld d gpu
  withheld-resume none d gpu e = refl
  withheld-resume (some m) d gpu e = ground (
    arith,
    ap (λ rented. is_rented rented gpu)
        (resume-paused_gpus docker (with_timeout d.machine.clock (30 * second))
          (record m { machine = d.machine })),
  )

  withheld-report_stop :
      (cmd : Command F) (r : Result (Unit {0})) (d : NodeDaemon W P) (gpu : String)
      → is_withheld (report_stop docker pool float dial cmd (r, d)).1 gpu ≡ is_withheld d gpu
  withheld-report_stop cmd (ok done) d gpu = withheld-resume d.mining_daemon d gpu refl
  withheld-report_stop cmd (err e) d gpu = refl

  -- Which GPU a start takes from mining.
  abbrev pub takes : NodeDaemon W P → Command F → String → Bool
  takes d cmd gpu =
      let req = rental_request float d.host_addr cmd in
      is_some d.rental_executor
      && is_some d.mining_daemon
      && not (req.session_id == "")
      && not (req.gpu_device_id == "")
      && req.gpu_device_id == gpu

  withheld-start_named :
      (cmd : Command F) (executor : RentalExecutor W P) (d : NodeDaemon W P) (gpu : String)
      → (rental_request float d.host_addr cmd).session_id == "" ≡ false
      → is_withheld (start_with docker pool float dial cmd (some executor) d).1 gpu
        ≡ is_withheld
            (pause_mining docker pool float dial
              (rental_request float d.host_addr cmd).gpu_device_id
              d.mining_daemon
              d)
            gpu
  withheld-start_named cmd executor d gpu given =
      let req = rental_request float d.host_addr cmd in
      let paused = pause_mining docker pool float dial req.gpu_device_id d.mining_daemon d in
      let outcome =
        on_executor docker pool float dial executor
          (start_rental docker pool (with_timeout paused.machine.clock (10 * minute)) req) paused in
      simp given (ap (λ o. rented_by o gpu) (withheld-report_start cmd outcome.0 outcome.1))

  withheld-start :
      (cmd : Command F) (d : NodeDaemon W P) (gpu : String)
      → is_withheld (handle_start_rental docker pool float dial cmd d).1 gpu
        ≡ (is_withheld d gpu || takes d cmd gpu)
  unfolding handle_start_rental
  withheld-start cmd d gpu = go d.rental_executor refl
    where
      req : StartRentalRequest
      req = rental_request float d.host_addr cmd

      go :
          (x : Option (RentalExecutor W P))
          → d.rental_executor ≡ x
          → is_withheld (start_with docker pool float dial cmd x d).1 gpu
            ≡ (is_withheld d gpu || takes d cmd gpu)
      go none e = ground arith
      go (some executor) e = elim (Bool-cases (req.session_id == "")) [
        | inl none_given ↦ simp (none_given, e) (ground arith)
        | inr given ↦
            withheld-start_named cmd executor d gpu given
            ∙ withheld-pause req.gpu_device_id d.mining_daemon d gpu refl
            ∙ simp (given, e) (ground arith)
      ]

  withheld-stop :
      (cmd : Command F) (d : NodeDaemon W P) (gpu : String)
      → is_withheld (handle_stop_rental docker pool float dial cmd d).1 gpu ≡ is_withheld d gpu
  unfolding handle_stop_rental
  withheld-stop cmd d gpu = go d.rental_executor
    where
      go :
          (x : Option (RentalExecutor W P))
          → is_withheld (stop_with docker pool float dial cmd x d).1 gpu ≡ is_withheld d gpu
      go none = refl
      go (some executor) = elim (Bool-cases (as_string (lookup "session_id" cmd.payload) == "")) [
        | inl e ↦ simp e
        | inr e ↦ simp e (withheld-report_stop cmd _ _ gpu)
      ]

  -- Beside the GPUs that the node kept from mining before a command, it keeps the one that a start
  -- names, if the node has both parts and the start has a session; no command of any type gives one
  -- back.
  pub withheld-handle_command :
      (cmd : Command F) (d : NodeDaemon W P) (gpu : String)
      → is_withheld (handle_command docker pool float dial cmd d).1 gpu ≡ (
          is_withheld d gpu
          || ((cmd.kind == "start_rental" || cmd.kind == "start_job") && takes d cmd gpu))
  unfolding handle_command
  withheld-handle_command cmd d gpu = ground (
    arith,
    text_iff cmd.kind "start_rental",
    text_iff cmd.kind "stop_rental",
    text_iff cmd.kind "start_job",
    text_iff cmd.kind "stop_job",
    text_iff "stop_rental" "start_job",
    withheld-start cmd d gpu,
    withheld-stop cmd d gpu,
  )

  unfoldable pub handle_all : List (Command F) → NodeDaemon W P → NodeDaemon W P
  handle_all [] d = d
  handle_all (cmd ∷ cmds) d = handle_all cmds (handle_command docker pool float dial cmd d).1

  -- A GPU that the node keeps from mining is kept from it through every sequence of commands.
  pub withheld-handle_all :
      (cmds : List (Command F)) (d : NodeDaemon W P) (gpu : String)
      → is_withheld d gpu ≡ true
      → is_withheld (handle_all cmds d) gpu ≡ true
  unfolding handle_all
  withheld-handle_all [] d gpu h = h
  withheld-handle_all (cmd ∷ cmds) d gpu h =
      withheld-handle_all cmds _ gpu (withheld-handle_command cmd d gpu ∙ rw h)
