-- ===== src/Rental/Start.antt =====
-- `StartRental` of internal/rental/executor.go: its outcomes, and what each leaves behind.
use worldland_sdk.Base.{
  ℕ, ◌≡◌, refl, ap, sym, ◌∙◌, String, true, none, some, is_some, if◌then◌else◌, Bool-cases,
  Option-cases, inl, inr, ◌⊎◌, ◌==◌, ℕ-eq, String-eq, text_iff, nat_eq_iff,
}
use worldland_sdk.Go.Errors.{
  GoError, sentinel, wrap, session_already_active, Result, ok, err, Result-cases, ◌>>=◌, ◌>>◌,
}
use worldland_sdk.Go.Context.{Context, background}
use worldland_sdk.Go.Map.{lookup, insert}
use worldland_sdk.Go.Machine.{Machine}
use worldland_sdk.Rental.{
  RentalState, RentalExecutor, StartRentalRequest, ConnectionInfo, connection_info,
  container_config, launch, start_rental, cleanup_on_error, create, start, await_health, track,
}
use worldland_sdk.Rental.Wait.{wait_for_health}
use worldland_sdk.Rental.Interfaces.{DockerService, PortPool, leased, refused}

abbrev pub started_state : StartRentalRequest → ℕ → String → ℕ → RentalState
started_state req port container_id now = record {
  session_id = req.session_id;
  container_id = container_id;
  ssh_port = port;
  started_at = now;
  stopped_at = none;
}

module _ {W P : Type 0} (docker : DockerService W) (pool : PortPool P) where
  -- What became of the port and the container of a start that failed with `e`: there was no port to
  -- have, the container could not be made, or the last thing that was done is the removal of the
  -- container that was made.
  pub data Disposed (re : RentalExecutor W P) (after : Machine W) (ctx : Context)
      (req : StartRentalRequest) (e : GoError) : Type 0 where
    no_port :
        (x : GoError)
        → (pool.allocate re.machine.clock req.session_id re.ports).0 ≡ err x
        → e ≡ wrap "failed to allocate port" x
        → after ≡ re.machine
        → Disposed re after ctx req e
    not_created :
        (port : ℕ) (x : GoError)
        → (pool.allocate re.machine.clock req.session_id re.ports).0 ≡ ok port
        → docker.create_container ctx (container_config req port) re.machine ≡ (err x, after)
        → e ≡ wrap "failed to create container" x
        → Disposed re after ctx req e
    removed :
        (port : ℕ) (container_id : String) (m : Machine W)
        → (pool.allocate re.machine.clock req.session_id re.ports).0 ≡ ok port
        → (docker.create_container ctx (container_config req port) re.machine).0 ≡ ok container_id
        → (container_id ≡ "") ⊎ (after ≡ (docker.remove_container background container_id true m).1)
        → Disposed re after ctx req e

  -- The outcomes of a start in the state `re`.
  pub data Started (ctx : Context) (req : StartRentalRequest) (re : RentalExecutor W P)
      (r : Result ConnectionInfo × RentalExecutor W P) : Type 0 where
    failed :
        (e : GoError)
        → r.0 ≡ err e
        → r.1.active ≡ re.active
        → r.1.pending ≡ re.pending
        → ((q : ℕ) → pool.holder r.1.ports q ≡ pool.holder re.ports q)
        → Disposed re r.1.machine ctx req e
        → Started ctx req re r
    running :
        (port : ℕ) (container_id : String)
        → r.0 ≡ ok (connection_info req port container_id)
        → pool.holder re.ports port ≡ none
        → ((q : ℕ)
            → pool.holder r.1.ports q
              ≡ (if port == q then some req.session_id else pool.holder re.ports q))
        → r.1.active
          ≡ insert req.session_id (started_state req port container_id r.1.machine.clock) re.active
        → r.1.pending ≡ re.pending
        → ((m : Machine W) × (wait_for_health docker re.health_timeout re.health_interval ctx
                container_id m
              ≡ (ok tt, r.1.machine)))
        → Started ctx req re r

  -- The port goes back, so that no lease has changed.
  holder-returned :
      (now port q : ℕ) (session_id : String) (before ports : P)
      → pool.holder before port ≡ none
      → pool.holder ports q ≡ (if port == q then some session_id else pool.holder before q)
      → pool.holder (pool.release now port ports).1 q ≡ pool.holder before q
  holder-returned now port q session_id before ports free h = elim (Bool-cases (port == q)) [
    | inl e ↦
        rw (pool.holder-release now port q ports, e)
          (sym free ∙ ap (pool.holder before) ((nat_eq_iff port q).0 e))
    | inr e ↦ rw (pool.holder-release now port q ports, e) (rw e at h)
  ]

  module _ (ctx : Context) (req : StartRentalRequest) (re : RentalExecutor W P) (port : ℕ)
      (ports : P) (taken : (pool.allocate re.machine.clock req.session_id re.ports).0 ≡ ok port)
      (free : pool.holder re.ports port ≡ none)
      (others : (q : ℕ)
        → pool.holder ports q
          ≡ (if port == q then some req.session_id else pool.holder re.ports q)) where
    -- A failure once the port is taken: the container, if there is one, is removed.
    failed_late :
        (container_id : String) (m : Machine W) (e : GoError)
        → (docker.create_container ctx (container_config req port) re.machine).0 ≡ ok container_id
        → Started ctx req re (
          err e,
          cleanup_on_error docker pool container_id port (record re { ports = ports; machine = m }),
        )
    failed_late container_id m e made = elim (Bool-cases (container_id == "")) [
      | inl empty ↦ rw empty (
          failed e refl refl refl
            (λ q. holder-returned _ port q req.session_id re.ports ports free (others q))
            (removed port container_id m taken made (inl ((text_iff container_id "").0 empty))))
      | inr named ↦ rw named (
          failed e refl refl refl
            (λ q. holder-returned _ port q req.session_id re.ports ports free (others q))
            (removed port container_id m taken made (inr refl)))
    ]

    health-Started :
        (container_id : String) (m : Machine W)
        → (docker.create_container ctx (container_config req port) re.machine).0 ≡ ok container_id
        → Started ctx req re (
            (await_health docker pool ctx port container_id
                >> track docker pool req port container_id)
              (record re { ports = ports; machine = m }))
    health-Started container_id m made =
        go (wait_for_health docker re.health_timeout re.health_interval ctx container_id m) refl
      where
        go :
            (x : Result (Unit {0}) × Machine W)
            → wait_for_health docker re.health_timeout re.health_interval ctx container_id m ≡ x
            → Started ctx req re (
                (await_health docker pool ctx port container_id
                    >> track docker pool req port container_id)
                  (record re { ports = ports; machine = m }))
        go (ok tt, n) e = rw e (running port container_id refl free others refl refl (m, e))
        go (err x, n) e = rw e (failed_late container_id n (wrap "failed health check" x) made)

    start-Started :
        (container_id : String) (m : Machine W)
        → (docker.create_container ctx (container_config req port) re.machine).0 ≡ ok container_id
        → Started ctx req re (
            (start docker pool ctx port container_id
                >> (await_health docker pool ctx port container_id
                    >> track docker pool req port container_id))
              (record re { ports = ports; machine = m }))
    start-Started container_id m made =
        elim (Result-cases (docker.start_container ctx container_id m).0) [
          | inr (e, not_started) ↦
              rw not_started (failed_late container_id _ (wrap "failed to start container" e) made)
          | inl (done, is_started) ↦ rw is_started (health-Started container_id _ made)
        ]

    create-Started : Started ctx req re (
        (create docker pool ctx req port >>= λ container_id.
        (start docker pool ctx port container_id
          >> (await_health docker pool ctx port container_id
              >> track docker pool req port container_id)))
          (record re { ports = ports }))
    create-Started =
        let made_at = (docker.create_container ctx (container_config req port) re.machine).1 in
        elim (Result-cases (docker.create_container ctx (container_config req port) re.machine).0) [
          | inr (e, no_id) ↦ rw no_id (
              failed (wrap "failed to create container" e) refl refl refl
                (λ q. holder-returned _ port q req.session_id re.ports ports free (others q))
                (not_created port e taken (ap (λ x. (x, made_at)) no_id) refl))
          | inl (container_id, made) ↦ rw made (start-Started container_id _ made)
        ]

  -- The rest of `StartRental` once the session was found to be untracked.
  pub launch-Started :
      (ctx : Context) (req : StartRentalRequest) (re : RentalExecutor W P)
      → Started ctx req re (launch docker pool ctx req re)
  unfolding launch
  launch-Started ctx req re = elim (pool.allocate-Leased re.machine.clock req.session_id re.ports) [
    | refused e failed_by same ↦ rw failed_by (
        failed (wrap "failed to allocate port" e) refl refl refl (λ q. rw same)
          (no_port e failed_by refl refl))
    | leased port taken free others ↦ rw taken (create-Started ctx req re port _ taken free others)
  ]

  -- `StartRental` refuses a session that is tracked and changes nothing; else it fails with every
  -- lease, every tracked rental and every scheduled cleanup as it was, because there was no port, or
  -- because its container could not be made, or after the container that it made was removed, if that
  -- has an id; or it tracks a rental on a port that nobody held, once its container was healthy.
  pub start_rental-Started :
      (ctx : Context) (req : StartRentalRequest) (re : RentalExecutor W P)
      → (is_some (lookup req.session_id re.active) ≡ true)
          × (start_rental docker pool ctx req re ≡ (err (sentinel session_already_active), re))
        ⊎ (lookup req.session_id re.active ≡ none)
          × Started ctx req re (start_rental docker pool ctx req re)
  unfolding start_rental
  start_rental-Started ctx req re = elim (Option-cases (lookup req.session_id re.active)) [
    | inr (state, e) ↦ rw e (inl (refl, refl))
    | inl e ↦ rw e (inr (refl, launch-Started ctx req re))
  ]
