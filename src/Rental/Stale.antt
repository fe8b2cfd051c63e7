-- ===== src/Rental/Stale.antt =====
-- A cleanup of internal/rental/executor.go that runs after its session was started once more, as when
-- a session was stopped twice and started between its two cleanups.
use worldland_sdk.Base.{
  ◌+◌, true, subst, ◌≡◌, refl, ap, ◌∙◌, sym, String, none, some, [], ◌∷◌, ◌++◌, inl, inr,
  if◌then◌else◌, ◌==◌, ℕ-eq, String-eq, text_iff, ==_refl, arith,
}
use worldland_sdk.Go.Errors.{sentinel, session_not_found, ok, err}
use worldland_sdk.Go.Context.{Context, background}
use worldland_sdk.Go.Map.{lookup, lookup-delete}
use worldland_sdk.Rental.{
  RentalState, RentalExecutor, Cleanup, StartRentalRequest, ConnectionInfo, start_rental,
  stop_rental, clean_up, get_rental_status,
}
use worldland_sdk.Rental.Interfaces.{DockerService, PortPool}
use worldland_sdk.Rental.Start.{Started, start_rental-Started}
use worldland_sdk.Rental.Race.{Success, Started-Success}
use worldland_sdk.Rental.Stop.{unknown, not_stopped, stopping, stop_rental-Stopped}

module _ {W P : Type 0} (docker : DockerService W) (pool : PortPool P) where
  -- What a start has left that succeeded.
  pub record Fresh (s : String) (info : ConnectionInfo) (re : RentalExecutor W P) : Type 0 where
    pub state : RentalState
    pub shown : get_rental_status s re ≡ ok state
    pub in_container : state.container_id ≡ info.container_id
    pub holds : pool.holder re.ports info.port ≡ some s

  -- What a stop that succeeded has scheduled.
  pub record Scheduled (s : String) (before after : RentalExecutor W P) : Type 0 where
    pub old : RentalState
    pub tracked : lookup s before.active ≡ some old
    pub cleanup : Cleanup
    pub pending : after.pending ≡ before.pending ++ cleanup ∷ []
    pub of_session : cleanup.session_id ≡ s
    pub of_container : cleanup.container_id ≡ old.container_id
    pub of_port : cleanup.ssh_port ≡ old.ssh_port

  -- The cleanup has run on the new rental.
  pub record Forgotten (s : String) (old : RentalState) (info : ConnectionInfo) (c : Cleanup)
      (re : RentalExecutor W P) : Type 0 where
    pub lost : get_rental_status s (clean_up docker pool c re) ≡ err (sentinel session_not_found)
    pub removes_old :
        (clean_up docker pool c re).machine
        ≡ (docker.remove_container background old.container_id true re.machine).1
    pub port_leased :
        pool.holder (clean_up docker pool c re).ports info.port
        ≡ (if old.ssh_port == info.port then none else some s)

  stop-Scheduled :
      (ctx : Context) (s : String) (re re' : RentalExecutor W P)
      → stop_rental docker pool ctx s re ≡ (ok tt, re')
      → Scheduled s re re'
  stop-Scheduled ctx s re re' e = elim (stop_rental-Stopped docker pool ctx s re) [
    | unknown absent r ↦ absurd (ground (arith, ap (λ x. x.0) (sym e ∙ r)))
    | not_stopped state x m found said r ↦ absurd (ground (arith, ap (λ x. x.0) (sym e ∙ r)))
    | stopping state m found said r ↦ record {
      old = state;
      tracked = found;
      cleanup = record {
        due = m.clock + re.grace_period;
        session_id = s;
        container_id = state.container_id;
        ssh_port = state.ssh_port;
      };
      pending = ap (λ x. x.1.pending) (sym e ∙ r);
      of_session = refl;
      of_container = refl;
      of_port = refl;
    }
  ]

  clean_up-Forgotten :
      (s : String) (before stopped after : RentalExecutor W P) (info : ConnectionInfo)
      (v : Scheduled s before stopped)
      → Fresh s info after
      → Forgotten s v.old info v.cleanup after
  unfolding clean_up get_rental_status
  clean_up-Forgotten s before stopped after info v fresh = record {
    lost = ground (
      arith,
      v.of_session,
      lookup-delete v.cleanup.session_id s after.active,
      text_iff v.cleanup.session_id s,
    );
    removes_old =
        ap (λ id. (docker.remove_container background id true after.machine).1) v.of_container;
    port_leased =
        pool.holder-release _ v.cleanup.ssh_port info.port after.ports
        ∙ ground (arith, v.of_port, fresh.holds);
  }

  Success-Fresh :
      (req : StartRentalRequest) (re after : RentalExecutor W P) (info : ConnectionInfo)
      → Success docker pool req re after info
      → Fresh req.session_id info after
  unfolding get_rental_status
  Success-Fresh req re after info v = record {
    state = v.state;
    shown = ground (arith, v.tracked);
    in_container = v.in_container;
    holds = v.leases info.port ∙ rw (==_refl info.port) refl;
  }

  start-Fresh :
      (ctx : Context) (req : StartRentalRequest) (re after : RentalExecutor W P)
      (info : ConnectionInfo)
      → start_rental docker pool ctx req re ≡ (ok info, after)
      → Fresh req.session_id info after
  start-Fresh ctx req re after info e = elim (start_rental-Started docker pool ctx req re) [
    | inl (dup, r) ↦ absurd (ground (arith, ap (λ x. x.0) (sym e ∙ r)))
    | inr (absent, s) ↦
        Success-Fresh req re after info (
          Started-Success docker pool req re info (subst (Started docker pool ctx req re) e s) refl)
  ]

  -- The cleanup that a stop has scheduled forgets the rental of its session that a later start has
  -- announced, whatever happened between the two: the status of the session, which showed the new
  -- container, is unknown, no container but the old one is removed, and the new port is still leased
  -- to the session unless it is the old one.
  pub clean_up-Stale :
      (ctx ctx' : Context) (s : String) (req : StartRentalRequest)
      (before stopped middle after : RentalExecutor W P) (info : ConnectionInfo)
      → stop_rental docker pool ctx s before ≡ (ok tt, stopped)
      → req.session_id ≡ s
      → start_rental docker pool ctx' req middle ≡ (ok info, after)
      → (scheduled : Scheduled s before stopped) × Fresh s info after
        × Forgotten s scheduled.old info scheduled.cleanup after
  clean_up-Stale ctx ctx' s req before stopped middle after info e same e' =
      let scheduled = stop-Scheduled ctx s before stopped e in
      let fresh =
        subst (λ t. Fresh t info after) same (start-Fresh ctx' req middle after info e') in
      (scheduled, fresh, clean_up-Forgotten s before stopped after info scheduled fresh)
