-- ===== src/Api/Stop.antt =====
-- The end of a rental over the handlers of internal/api/handler.go: a stop, and the cleanup that it
-- schedules in internal/rental/executor.go.
use worldland_sdk.Base.{
  ◌≡◌, ◌≢◌, refl, ◌∙◌, String, false, Option, none, some, [], ◌∷◌, ◌++◌, ◌==◌, String-eq, ℕ-eq,
  Bool-cases, inl, inr, ==_refl, arith,
}
use worldland_sdk.Go.Errors.{GoError, session_not_found, sentinel, wrap, Result}
use worldland_sdk.Go.Context.{Context}
use worldland_sdk.Go.Map.{lookup, lookup-insert_self, lookup-delete}
use worldland_sdk.Rental.{RentalExecutor, RentalState, Cleanup, clean_up}
use worldland_sdk.Rental.Interfaces.{DockerService, PortPool}
use worldland_sdk.Rental.Stop.{stop_rental-Stopped, Stopped, unknown, not_stopped, stopping}
use worldland_sdk.Api.{
  Request, rental, handle_stop_rental, handle_get_status, stop_decoded, stop_response, lookup_error,
  write_error, write_json,
}
use worldland_sdk.Api.Lifecycle.{
  status_request, status_of_tracked, status_of_untracked, bad_request, not_allowed,
}

lookup_error-ne : (e : GoError) → (lookup_error e).status ≢ 200
lookup_error-ne e h = ground arith

module _ {W P : Type 0} (docker : DockerService W) (pool : PortPool P) where
  -- What the status of a session shows after a stop in the state `re`, and after its cleanup.
  pub data StopShown (later : Context) (body : Option String) (re after : RentalExecutor W P)
      : Type 0 where
    stop_shown :
        (session_id : String) (state : RentalState) (cleanup : Cleanup)
        → body ≡ some session_id
        → lookup session_id re.active ≡ some state
        → handle_get_status (status_request later session_id) after
          ≡ write_json 200 (rental (record state { stopped_at = some re.machine.clock }))
        → after.pending ≡ re.pending ++ cleanup ∷ []
        → handle_get_status (status_request later session_id) (clean_up docker pool cleanup after)
          ≡ write_error 404 "rental not found" "RENTAL_NOT_FOUND"
        → pool.holder (clean_up docker pool cleanup after).ports state.ssh_port ≡ none
        → StopShown later body re after

  cleaned :
      (later : Context) (session_id : String) (c : Cleanup) (re : RentalExecutor W P)
      → session_id == "" ≡ false
      → c.session_id ≡ session_id
      → handle_get_status (status_request later session_id) (clean_up docker pool c re)
        ≡ write_error 404 "rental not found" "RENTAL_NOT_FOUND"
  cleaned later session_id c re named same =
      status_of_untracked later session_id (clean_up docker pool c re) named (
        unfold clean_up in
        lookup-delete c.session_id session_id re.active ∙ rw (same, ==_refl session_id))

  freed :
      (c : Cleanup) (re : RentalExecutor W P)
      → pool.holder (clean_up docker pool c re).ports c.ssh_port ≡ none
  unfolding clean_up
  freed c re = pool.holder-release _ c.ssh_port c.ssh_port re.ports ∙ rw (==_refl c.ssh_port)

  stop_response-StopShown :
      (ctx later : Context) (session_id : String) (re : RentalExecutor W P)
      {x : Result (Unit {0}) × RentalExecutor W P}
      → session_id == "" ≡ false
      → Stopped docker pool ctx session_id re x
      → (stop_response docker pool session_id x).0.status ≡ 200
      → StopShown later (some session_id) re (stop_response docker pool session_id x).1
  stop_response-StopShown ctx later session_id re named (unknown absent e) said =
      absurd (lookup_error-ne (sentinel session_not_found) (rw e at said))
  stop_response-StopShown ctx later session_id re named (not_stopped state e m found failed r)
        said =
      absurd (lookup_error-ne (wrap "failed to stop container" e) (rw r at said))
  stop_response-StopShown ctx later session_id re named (stopping state m found done r) said =
      rw r (
        stop_shown session_id state _ refl found
          (status_of_tracked later session_id _ _ named (lookup-insert_self session_id _ re.active))
          refl (cleaned later session_id _ _ named refl) (freed _ _))

  -- After a stop that is answered with 200 the status of the session shows the rental as stopped;
  -- once the cleanup that it scheduled has run on that state, the session is unknown and nobody
  -- holds its port.
  pub handle_stop_rental-StopShown :
      (later : Context) (r : Request (Option String)) (re : RentalExecutor W P)
      → (handle_stop_rental docker pool r re).0.status ≡ 200
      → StopShown later r.body re (handle_stop_rental docker pool r re).1
  unfolding handle_stop_rental
  handle_stop_rental-StopShown later r re = elim (Bool-cases (r.method == "POST")) [
    | inl e ↦ rw e (stopped_by r.body)
    | inr e ↦ rw e (λ said. absurd (not_allowed said))
  ]
    where
      stopped_by :
          (body : Option String)
          → (stop_decoded docker pool r.context body re).0.status ≡ 200
          → StopShown later body re (stop_decoded docker pool r.context body re).1
      stopped_by none said = absurd (bad_request said)
      stopped_by (some session_id) said = elim (Bool-cases (session_id == "")) [
        | inl e ↦ absurd (bad_request (rw e at said))
        | inr e ↦ rw e (
            stop_response-StopShown r.context later session_id re e
              (stop_rental-Stopped docker pool r.context session_id re) (rw e at said))
      ]
