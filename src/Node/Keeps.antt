-- ===== src/Node/Keeps.antt =====
-- What the commands of `NodeDaemon` in internal/services/node_daemon.go keep: the invariants of the
-- executor and of the mining daemon, which they call.
use worldland_sdk.Base.{
  ◌*◌, ◌≡◌, String, true, ◌||◌, Option, none, some, [], ◌∷◌, All, IfAny, ◌==◌, String-eq,
  Bool-cases, inl, inr,
}
use worldland_sdk.Go.Errors.{Result, ok, err}
use worldland_sdk.Go.Context.{with_timeout, second, minute}
use worldland_sdk.Go.Map.{lookup}
use worldland_sdk.Go.Machine.{Machine, Outside}
use worldland_sdk.Go.Json.{Float64, as_string}
use worldland_sdk.Rental.{RentalExecutor, ConnectionInfo, start_rental, stop_rental}
use worldland_sdk.Rental.Interfaces.{DockerService, PortPool}
use worldland_sdk.Rental.History.{IsConsistent, start-IsConsistent, stop-IsConsistent}
use worldland_sdk.Rental.Pending.{OtherSession}
use worldland_sdk.Mining.{MiningDaemon}
use worldland_sdk.Mining.History.{Inv, Inv-machine, pause-Inv, resume-Inv}
use worldland_sdk.Node.{
  NodeDaemon, Command, handle_command, handle_start_rental, handle_stop_rental, start_with,
  stop_with, report_start, report_stop, rental_request, pause_mining, resume_mining, on_executor,
}

module _ {W P F : Type 0} (docker : DockerService W) (pool : PortPool P) (float : Float64 F)
    (dial : Outside W String) where
  pub record Healthy (d : NodeDaemon W P) : Type 0 where
    pub rentals : IfAny (IsConsistent docker pool) d.rental_executor
    pub mines : IfAny Inv d.mining_daemon

  abbrev pub session_of : Command F → String
  session_of cmd = as_string (lookup "session_id" cmd.payload)

  -- No cleanup of the session is under way.
  abbrev pub NotCleaning : String → NodeDaemon W P → Type 0
  NotCleaning session_id d =
      IfAny (λ (re : RentalExecutor W P). All (OtherSession session_id) re.pending)
        d.rental_executor

  -- A command to stop is not for a session whose cleanup is under way.
  abbrev pub IsFirstStop : Command F → NodeDaemon W P → Type 0
  IsFirstStop cmd d =
      cmd.kind == "stop_rental" || cmd.kind == "stop_job" ≡ true → NotCleaning (session_of cmd) d

  pub at_machine-Healthy :
      (m : Machine W) (d : NodeDaemon W P) → Healthy d → Healthy (record d { machine = m })
  at_machine-Healthy m d v = record { rentals = v.rentals; mines = v.mines }

  pause-Healthy :
      (gpu : String) (o : Option (MiningDaemon W)) (d : NodeDaemon W P)
      → IfAny Inv o
      → Healthy d
      → Healthy (pause_mining docker pool float dial gpu o d)
  pause-Healthy gpu none d mines v = v
  pause-Healthy gpu (some m) d mines v = elim (Bool-cases (gpu == "")) [
    | inl e ↦ rw e v
    | inr e ↦ rw e (record {
      rentals = v.rentals;
      mines =
          pause-Inv docker (with_timeout d.machine.clock (30 * second)) (gpu ∷ [])
            (record m { machine = d.machine }) (Inv-machine d.machine m mines);
    })
  ]

  resume-Healthy :
      (o : Option (MiningDaemon W)) (d : NodeDaemon W P)
      → IfAny Inv o
      → Healthy d
      → Healthy (resume_mining docker pool float dial o d)
  resume-Healthy none d mines v = v
  resume-Healthy (some m) d mines v = record {
    rentals = v.rentals;
    mines =
        resume-Inv docker (with_timeout d.machine.clock (30 * second)) []
          (record m { machine = d.machine }) (Inv-machine d.machine m mines);
  }

  report_start-Healthy :
      (cmd : Command F) (r : Result ConnectionInfo) (d : NodeDaemon W P)
      → Healthy d
      → Healthy (report_start docker pool float dial cmd (r, d)).1
  report_start-Healthy cmd (err e) d v = v
  report_start-Healthy cmd (ok info) d v =
      elim (Bool-cases (d.host_addr == "" || d.host_addr == "localhost")) [
        | inl e ↦ simp e (record { rentals = v.rentals; mines = v.mines })
        | inr e ↦ simp e v
      ]

  report_stop-Healthy :
      (cmd : Command F) (r : Result (Unit {0})) (d : NodeDaemon W P)
      → Healthy d
      → Healthy (report_stop docker pool float dial cmd (r, d)).1
  report_stop-Healthy cmd (err e) d v = v
  report_stop-Healthy cmd (ok done) d v = resume-Healthy d.mining_daemon d v.mines v

  handle_start-Healthy :
      (cmd : Command F) (d : NodeDaemon W P)
      → Healthy d
      → Healthy (handle_start_rental docker pool float dial cmd d).1
  unfolding handle_start_rental
  handle_start-Healthy cmd d v = go d.rental_executor v.rentals
    where
      go :
          (x : Option (RentalExecutor W P))
          → IfAny (IsConsistent docker pool) x
          → Healthy (start_with docker pool float dial cmd x d).1
      go none h = v
      go (some re) h =
          let req = rental_request float d.host_addr cmd in
          let paused = pause_mining docker pool float dial req.gpu_device_id d.mining_daemon d in
          let ctx = with_timeout paused.machine.clock (10 * minute) in
          let started =
            on_executor docker pool float dial re (start_rental docker pool ctx req) paused in
          elim (Bool-cases (req.session_id == "")) [
            | inl e ↦ simp e v
            | inr e ↦ simp e (
                report_start-Healthy cmd started.0 started.1 (record {
                  rentals =
                      start-IsConsistent docker pool ctx req
                        (record re { machine = paused.machine }) h;
                  mines = (pause-Healthy req.gpu_device_id d.mining_daemon d v.mines v).mines;
                }))
          ]

  handle_stop-Healthy :
      (cmd : Command F) (d : NodeDaemon W P)
      → NotCleaning (session_of cmd) d
      → Healthy d
      → Healthy (handle_stop_rental docker pool float dial cmd d).1
  unfolding handle_stop_rental
  handle_stop-Healthy cmd d first v = go d.rental_executor v.rentals first
    where
      go :
          (x : Option (RentalExecutor W P))
          → IfAny (IsConsistent docker pool) x
          → IfAny (λ (re : RentalExecutor W P). All (OtherSession (session_of cmd)) re.pending) x
          → Healthy (stop_with docker pool float dial cmd x d).1
      go none h f = v
      go (some re) h f =
          let ctx = with_timeout d.machine.clock (30 * second) in
          let done =
            on_executor docker pool float dial re (stop_rental docker pool ctx (session_of cmd))
              d in
          elim (Bool-cases (session_of cmd == "")) [
            | inl e ↦ simp e v
            | inr e ↦ simp e (
                report_stop-Healthy cmd done.0 done.1 (record {
                  rentals =
                      stop-IsConsistent docker pool ctx (session_of cmd)
                        (record re { machine = d.machine }) f h;
                  mines = v.mines;
                }))
          ]

  -- Whatever the hub commands, a healthy daemon stays healthy, if the command is not to stop a
  -- session whose cleanup is under way.
  pub handle_command-Healthy :
      (cmd : Command F) (d : NodeDaemon W P)
      → IsFirstStop cmd d
      → Healthy d
      → Healthy (handle_command docker pool float dial cmd d).1
  unfolding handle_command
  handle_command-Healthy cmd d first v = elim (Bool-cases (cmd.kind == "start_rental")) [
    | inl e ↦ simp e (handle_start-Healthy cmd d v)
    | inr e ↦ elim (Bool-cases (cmd.kind == "stop_rental")) [
      | inl f ↦ simp (e, f) (handle_stop-Healthy cmd d (first (simp f)) v)
      | inr f ↦ elim (Bool-cases (cmd.kind == "start_job")) [
        | inl g ↦ simp (e, f, g) (handle_start-Healthy cmd d v)
        | inr g ↦ elim (Bool-cases (cmd.kind == "stop_job")) [
          | inl h ↦ simp (e, f, g, h) (handle_stop-Healthy cmd d (first (simp (f, h))) v)
          | inr h ↦ simp (e, f, g, h) v
        ]
      ]
    ]
  ]
