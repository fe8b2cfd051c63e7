-- ===== src/Rental/Threads/Alone.antt =====
-- A call of internal/rental/executor.go that is not interrupted: the sections of `StartRental` and
-- `StopRental`, and of the goroutine of a cleanup, one after the other, are the whole call.
use worldland_sdk.Base.{
  ℕ, zero, suc, ◌≡◌, refl, String, true, leb, Option-cases, inl, inr, [], ◌∷◌, ◌++◌, String-eq,
}
use worldland_sdk.Rental.Wait.{wait_for_health}
use worldland_sdk.Go.Errors.{GoError, Result, ok, err, Result-cases, ◌>>=◌, ◌>>◌}
use worldland_sdk.Go.Context.{Context}
use worldland_sdk.Go.Map.{lookup}
use worldland_sdk.Rental.{
  RentalExecutor, StartRentalRequest, Cleanup, start_rental, stop_rental, launch, container_config,
  create, start, await_health, track, clean_up,
}
use worldland_sdk.Rental.Interfaces.{DockerService, PortPool}
use worldland_sdk.Rental.Threads.{
  Call, advance, asked, port_taken, created, started, stop_asked, stop_failed, cleaning, cleaned,
  tracked,
}

module _ {W P : Type 0} (docker : DockerService W) (pool : PortPool P) where
  -- A number of sections of one call, with nothing between them.
  unfoldable pub alone : ℕ → Call × RentalExecutor W P → Call × RentalExecutor W P
  alone zero turn = turn
  alone (suc n) turn = alone n (advance docker pool turn.0 turn.1)

  module _ (ctx : Context) (req : StartRentalRequest) (port : ℕ) where
    started-alone :
        (id : String) (re : RentalExecutor W P)
        → alone 2 (started ctx req port id, re)
          ≡ tracked docker pool
              ((await_health docker pool ctx port id >> track docker pool req port id) re)
    unfolding alone advance
    started-alone id re =
        elim (Result-cases
          (wait_for_health docker re.health_timeout re.health_interval ctx id re.machine).0) [
            | inr (x, e) ↦ rw e refl
            | inl (done, e) ↦ rw e refl
          ]

    created-alone :
        (id : String) (re : RentalExecutor W P)
        → alone 3 (created ctx req port id, re)
          ≡ tracked docker pool (
              (start docker pool ctx port id
                  >> (await_health docker pool ctx port id >> track docker pool req port id))
                re)
    unfolding alone advance
    created-alone id re = elim (Result-cases (docker.start_container ctx id re.machine).0) [
      | inr (x, e) ↦ rw e refl
      | inl (done, e) ↦ rw e (started-alone id _)
    ]

    leased-alone :
        (re : RentalExecutor W P)
        → alone 4 (port_taken ctx req port, re)
          ≡ tracked docker pool (
              (create docker pool ctx req port >>= λ id.
              (start docker pool ctx port id
                >> (await_health docker pool ctx port id >> track docker pool req port id)))
                re)
    unfolding alone advance
    leased-alone re =
        elim (Result-cases (docker.create_container ctx (container_config req port) re.machine).0) [
          | inr (x, e) ↦ rw e refl
          | inl (id, e) ↦ rw e (created-alone id _)
        ]

  start_rental-alone :
      (ctx : Context) (req : StartRentalRequest) (re : RentalExecutor W P)
      → alone 6 (asked ctx req, re) ≡ tracked docker pool (start_rental docker pool ctx req re)
  unfolding start_rental launch alone advance
  start_rental-alone ctx req re = elim (Option-cases (lookup req.session_id re.active)) [
    | inr (state, e) ↦ rw e refl
    | inl e ↦ rw e (elim (Result-cases (pool.allocate re.machine.clock req.session_id re.ports).0) [
      | inr (x, bad) ↦ rw bad refl
      | inl (port, good) ↦ rw good (leased-alone ctx req port _)
    ])
  ]

  -- A stop that failed, or one whose cleanup is a goroutine of its own in place of the last pending.
  pub data StoppedAlone (turn : Call × RentalExecutor W P)
      (r : Result (Unit {0}) × RentalExecutor W P) : Type 0 where
    fails : (e : GoError) → r.0 ≡ err e → turn ≡ (stop_failed e, r.1) → StoppedAlone turn r
    cleans :
        (c : Cleanup)
        → r ≡ (ok tt, record turn.1 { pending = turn.1.pending ++ c ∷ [] })
        → turn.0 ≡ cleaning c
        → StoppedAlone turn r

  stop_rental-alone :
      (ctx : Context) (s : String) (re : RentalExecutor W P)
      → StoppedAlone (alone 2 (stop_asked ctx s, re)) (stop_rental docker pool ctx s re)
  unfolding stop_rental alone advance
  stop_rental-alone ctx s re = elim (Option-cases (lookup s re.active)) [
    | inl e ↦ rw e (fails _ refl refl)
    | inr (state, e) ↦
        rw e (elim (Result-cases (docker.stop_container ctx state.container_id 10 re.machine).0) [
          | inr (x, bad) ↦ rw bad (fails _ refl refl)
          | inl (done, good) ↦ rw good (cleans _ refl refl)
        ])
  ]

  -- `StartRental`, uninterrupted, is six sections: its result and the executor that it leaves are
  -- those of the last. `StopRental`, uninterrupted, is two sections: they fail where it fails, with
  -- its error and the executor that it leaves, and where it succeeds they leave its executor but for
  -- the cleanup that it appended to the pending ones, which the call goes on with.
  pub calls-alone :
      (ctx : Context) (req : StartRentalRequest) (s : String) (re : RentalExecutor W P)
      → (alone 6 (asked ctx req, re) ≡ tracked docker pool (start_rental docker pool ctx req re))
        × StoppedAlone (alone 2 (stop_asked ctx s, re)) (stop_rental docker pool ctx s re)
  calls-alone ctx req s re = (start_rental-alone ctx req re, stop_rental-alone ctx s re)

  -- `scheduleCleanup`, uninterrupted once its sleep is over, is two sections.
  pub clean_up-alone :
      (c : Cleanup) (re : RentalExecutor W P)
      → leb c.due re.machine.clock ≡ true
      → alone 2 (cleaning c, re) ≡ (cleaned, clean_up docker pool c re)
  unfolding clean_up alone advance
  clean_up-alone c re due = rw due refl
