-- ===== src/Node/Acks.antt =====
-- The acknowledgements of `NodeDaemon` of internal/services/node_daemon.go.
use text.Mathlib.TextLemmas.{append-eq-nil_iff}
use worldland_sdk.Base.{
  ◌*◌, ◌≡◌, ◌≢◌, refl, ◌∙◌, ◌⊎◌, inl, inr, String, false, Option, none, some, ◌==◌, String-eq,
  text_iff, ℕ-eq, ==_refl, Bool-cases, arith,
}
use worldland_sdk.Go.Errors.{Result, ok, err, error_text}
use worldland_sdk.Go.Context.{with_timeout, minute}
use worldland_sdk.Go.Map.{lookup, lookup-insert_self}
use worldland_sdk.Go.Machine.{Outside}
use worldland_sdk.Go.Json.{Float64, as_string, string, number}
use worldland_sdk.Container.{◌<>◌}
use worldland_sdk.Rental.{RentalExecutor, ConnectionInfo, RentalState}
use worldland_sdk.Rental.Start.{Started, failed, running, start_rental-Started, started_state}
use worldland_sdk.Rental.Interfaces.{DockerService, PortPool}
use worldland_sdk.Node.{
  NodeDaemon, Command, CommandAck, handle_command, handle_start_rental, handle_stop_rental,
  start_with, stop_with, report_start, report_stop, rental_request, pause_mining,
}

-- An answer to the command: it names it, and it says either "ok" or "error" with a message.
pub record Answers {F : Type 0} (cmd : Command F) (ack : CommandAck F) : Type 0 where
  pub names : ack.command_id ≡ cmd.id
  pub says : (ack.status ≡ "ok") ⊎ ((ack.status ≡ "error") × (ack.error ≢ ""))

not_empty : (s : String) → s == "" ≡ false → s ≢ ""
not_empty s h e = ground (arith, text_iff s "")

prefixed : (s t : String) → s == "" ≡ false → s <> t ≢ ""
prefixed s t h e = ground (arith, text_iff s "", (append-eq-nil_iff {p = s} {q = t}).0 e)

error_not_ok : ◌≢◌ {A = String} "error" "ok"
error_not_ok e = ground (arith, text_iff "error" "ok")

module _ {W P F : Type 0} (docker : DockerService W) (pool : PortPool P) (float : Float64 F)
    (dial : Outside W String) where
  report_start-Answers :
      (cmd : Command F) (r : Result ConnectionInfo) (d : NodeDaemon W P)
      → Answers cmd (report_start docker pool float dial cmd (r, d)).0
  report_start-Answers cmd (ok info) d = record { names = refl; says = inl refl }
  report_start-Answers cmd (err e) d = record {
    names = refl;
    says = inr (refl, prefixed "failed to start rental: " (error_text e) refl);
  }

  report_stop-Answers :
      (cmd : Command F) (r : Result (Unit {0})) (d : NodeDaemon W P)
      → Answers cmd (report_stop docker pool float dial cmd (r, d)).0
  report_stop-Answers cmd (ok info) d = record { names = refl; says = inl refl }
  report_stop-Answers cmd (err e) d = record { names = refl; says = inl refl }

  handle_start-Answers :
      (cmd : Command F) (d : NodeDaemon W P)
      → Answers cmd (handle_start_rental docker pool float dial cmd d).0
  unfolding handle_start_rental
  handle_start-Answers cmd d = go d.rental_executor
    where
      go :
          (x : Option (RentalExecutor W P))
          → Answers cmd (start_with docker pool float dial cmd x d).0
      go none = record {
        names = refl;
        says = inr (refl, not_empty "rental executor not configured" refl);
      }
      go (some executor) =
          elim (Bool-cases ((rental_request float d.host_addr cmd).session_id == "")) [
            | inl e ↦
                simp e
                  (record { names = refl; says = inr (refl, not_empty "missing session_id" refl) })
            | inr e ↦ simp e (report_start-Answers cmd _ _)
          ]

  handle_stop-Answers :
      (cmd : Command F) (d : NodeDaemon W P)
      → Answers cmd (handle_stop_rental docker pool float dial cmd d).0
  unfolding handle_stop_rental
  handle_stop-Answers cmd d = go d.rental_executor
    where
      go :
          (x : Option (RentalExecutor W P))
          → Answers cmd (stop_with docker pool float dial cmd x d).0
      go none = record {
        names = refl;
        says = inr (refl, not_empty "rental executor not configured" refl);
      }
      go (some executor) = elim (Bool-cases (as_string (lookup "session_id" cmd.payload) == "")) [
        | inl e ↦
            simp e (record { names = refl; says = inr (refl, not_empty "missing session_id" refl) })
        | inr e ↦ simp e (report_stop-Answers cmd _ _)
      ]

  -- Whatever the hub sends, the node answers it: with the id of the command and "ok", or with the
  -- id of the command, "error" and a message.
  pub handle_command-Answers :
      (cmd : Command F) (d : NodeDaemon W P)
      → Answers cmd (handle_command docker pool float dial cmd d).0
  unfolding handle_command
  handle_command-Answers cmd d = elim (Bool-cases (cmd.kind == "start_rental")) [
    | inl e ↦ rw e (handle_start-Answers cmd d)
    | inr e ↦ rw e (elim (Bool-cases (cmd.kind == "stop_rental")) [
      | inl f ↦ rw f (handle_stop-Answers cmd d)
      | inr f ↦ rw f (elim (Bool-cases (cmd.kind == "start_job")) [
        | inl g ↦ rw g (handle_start-Answers cmd d)
        | inr g ↦ rw g (elim (Bool-cases (cmd.kind == "stop_job")) [
          | inl h ↦ rw h (handle_stop-Answers cmd d)
          | inr h ↦
              rw h (record { names = refl; says = inr (refl, not_empty "unknown command" refl) })
        ])
      ])
    ])
  ]

  -- The rental that the answer speaks of is the one that the executor tracks for the session.
  pub record Reports (cmd : Command F) (ack : CommandAck F) (d : NodeDaemon W P) : Type 0 where
    pub executor : RentalExecutor W P
    pub configured : d.rental_executor ≡ some executor
    pub state : RentalState
    pub tracked : lookup (as_string (lookup "session_id" cmd.payload)) executor.active ≡ some state
    pub port : lookup "ssh_port" ack.payload ≡ some (number (float.of_int state.ssh_port))
    pub container : lookup "container_id" ack.payload ≡ some (string state.container_id)
    pub leased :
        pool.holder executor.ports state.ssh_port
        ≡ some (as_string (lookup "session_id" cmd.payload))

  report_start-Reports :
      (cmd : Command F) (host : String) (executor : RentalExecutor W P) (paused : NodeDaemon W P)
      {r : Result ConnectionInfo × RentalExecutor W P}
      → Started docker pool
          (with_timeout paused.machine.clock (10 * minute))
          (rental_request float host cmd)
          executor
          r
      → (report_start docker pool float dial cmd
          (r.0, record paused { machine = r.1.machine; rental_executor = some r.1 })).0.status
        ≡ "ok"
      → Reports cmd
          (report_start docker pool float dial cmd
            (r.0, record paused { machine = r.1.machine; rental_executor = some r.1 })).0
          (report_start docker pool float dial cmd
            (r.0, record paused { machine = r.1.machine; rental_executor = some r.1 })).1
  unfolding rental_request
  report_start-Reports cmd host executor paused (failed e re_err a p h dis) said =
      absurd (error_not_ok (rw re_err at said))
  report_start-Reports cmd host executor paused {r}
        (running port id good free others new same healthy) said =
      rw good (record {
        executor = r.1;
        configured = ground arith;
        state = started_state (rental_request float host cmd) port id r.1.machine.clock;
        tracked = rw new (lookup-insert_self _ _ executor.active);
        port = unfold lookup in refl;
        container = unfold lookup in refl;
        leased = others port ∙ rw (==_refl port);
      })

  start_with-Reports :
      (cmd : Command F) (executor : RentalExecutor W P) (d : NodeDaemon W P)
      → (start_with docker pool float dial cmd (some executor) d).0.status ≡ "ok"
      → Reports cmd
          (start_with docker pool float dial cmd (some executor) d).0
          (start_with docker pool float dial cmd (some executor) d).1
  start_with-Reports cmd executor d said =
      let req = rental_request float d.host_addr cmd in
      let paused = pause_mining docker pool float dial req.gpu_device_id d.mining_daemon d in
      elim (Bool-cases (req.session_id == "")) [
        | inl e ↦ absurd (error_not_ok (rw e at said))
        | inr e ↦
            elim (start_rental-Started docker pool (with_timeout paused.machine.clock (10 * minute))
              req (record executor { machine = paused.machine })) [
                | inl (dup, r) ↦ absurd (error_not_ok (rw (e, r) at said))
                | inr (absent, s) ↦
                    rw e (report_start-Reports cmd d.host_addr _ paused s (rw e at said))
              ]
      ]

  -- A start that is answered with "ok" is tracked by the executor under the session of the command,
  -- on the port and in the container that the answer names, and the session holds that port.
  pub handle_start_rental-Reports :
      (cmd : Command F) (d : NodeDaemon W P)
      → (handle_start_rental docker pool float dial cmd d).0.status ≡ "ok"
      → Reports cmd
          (handle_start_rental docker pool float dial cmd d).0
          (handle_start_rental docker pool float dial cmd d).1
  unfolding handle_start_rental
  handle_start_rental-Reports cmd d = go d.rental_executor
    where
      go :
          (x : Option (RentalExecutor W P))
          → (start_with docker pool float dial cmd x d).0.status ≡ "ok"
          → Reports cmd
              (start_with docker pool float dial cmd x d).0
              (start_with docker pool float dial cmd x d).1
      go none said = absurd (error_not_ok said)
      go (some executor) said = start_with-Reports cmd executor d said
