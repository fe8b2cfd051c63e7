-- ===== src/Api/Lifecycle.antt =====
-- A rental over the handlers of internal/api/handler.go: what a client sees after each step.
use worldland_sdk.Base.{
  ℕ, ◌≡◌, ◌≢◌, refl, inl, inr, String, false, Option, none, some, ◌==◌, String-eq, ℕ-eq, Bool-cases,
  arith,
}
use worldland_sdk.Go.Errors.{GoError, Result}
use worldland_sdk.Go.Context.{Context}
use worldland_sdk.Go.Map.{lookup, lookup-insert_self}
use worldland_sdk.Rental.{RentalExecutor, RentalState, ConnectionInfo, get_rental_status}
use worldland_sdk.Rental.Interfaces.{DockerService, PortPool}
use worldland_sdk.Rental.Start.{start_rental-Started, Started, failed, running, started_state}
use worldland_sdk.Api.{
  Request, Response, StartBody, StartRentalResponse, started, rental, handle_start_rental,
  handle_get_status, start_decoded, start_response, start_error, write_error, write_json,
  rental_request,
}

abbrev pub status_request : Context → String → Request String
status_request ctx session_id = record { method = "GET"; context = ctx; body = session_id }

pub status_of_tracked :
    {W P : Type 0} (ctx : Context) (session_id : String) (state : RentalState)
    (re : RentalExecutor W P)
    → session_id == "" ≡ false
    → lookup session_id re.active ≡ some state
    → handle_get_status (status_request ctx session_id) re ≡ write_json 200 (rental state)
unfolding handle_get_status get_rental_status
status_of_tracked ctx session_id state re named found = ground arith

pub status_of_untracked :
    {W P : Type 0} (ctx : Context) (session_id : String) (re : RentalExecutor W P)
    → session_id == "" ≡ false
    → lookup session_id re.active ≡ none
    → handle_get_status (status_request ctx session_id) re
      ≡ write_error 404 "rental not found" "RENTAL_NOT_FOUND"
unfolding handle_get_status get_rental_status
status_of_untracked ctx session_id re named missing = ground arith

start_error-ne : (e : GoError) → (start_error e).status ≢ 200
start_error-ne e h = ground arith

pub bad_request : ◌≢◌ {A = ℕ} 400 200
bad_request h = omega arith

pub not_allowed : ◌≢◌ {A = ℕ} 405 200
not_allowed h = omega arith

conflict : ◌≢◌ {A = ℕ} 409 200
conflict h = omega arith

module _ {W P : Type 0} (docker : DockerService W) (pool : PortPool P) where
  -- The status of a session shows the rental that a start response announced.
  pub data Shown (ctx : Context) (r : Response) (re : RentalExecutor W P) : Type 0 where
    shown :
        (res : StartRentalResponse) (state : RentalState)
        → r.body ≡ started res
        → handle_get_status (status_request ctx res.session_id) re ≡ write_json 200 (rental state)
        → state.session_id ≡ res.session_id
        → state.ssh_port ≡ res.ssh_port
        → state.stopped_at ≡ none
        → Shown ctx r re

  start_response-Shown :
      (ctx later : Context) (host : String) (req : StartBody) (re : RentalExecutor W P)
      {x : Result ConnectionInfo × RentalExecutor W P}
      → req.session_id == "" ≡ false
      → Started docker pool ctx (rental_request host req) re x
      → (start_response docker pool req.session_id x).0.status ≡ 200
      → Shown later
          (start_response docker pool req.session_id x).0
          (start_response docker pool req.session_id x).1
  unfolding rental_request
  start_response-Shown ctx later host req re named (failed e bad a p h dis) said =
      absurd (start_error-ne e (rw bad at said))
  start_response-Shown ctx later host req re {x} named
        (running port id good free others new same healthy) said =
      rw good (
        shown _ (started_state (rental_request host req) port id x.1.machine.clock) refl
          (status_of_tracked later req.session_id _ x.1 named
            (rw new (lookup-insert_self _ _ re.active)))
          refl refl refl)

  start_decoded-Shown :
      (ctx later : Context) (host : String) (req : StartBody) (re : RentalExecutor W P)
      → (start_decoded docker pool host ctx (some req) re).0.status ≡ 200
      → Shown later
          (start_decoded docker pool host ctx (some req) re).0
          (start_decoded docker pool host ctx (some req) re).1
  start_decoded-Shown ctx later host req re said = elim (Bool-cases (req.session_id == "")) [
    | inl e ↦ absurd (bad_request (rw e at said))
    | inr e ↦ elim (Bool-cases (req.gpu_device_id == "")) [
      | inl f ↦ absurd (bad_request (rw (e, f) at said))
      | inr f ↦ elim (Bool-cases (req.ssh_password == "")) [
        | inl g ↦ absurd (bad_request (rw (e, f, g) at said))
        | inr g ↦ elim (start_rental-Started docker pool ctx (rental_request host req) re) [
          | inl (dup, r) ↦ absurd (conflict (rw (e, f, g, r) at said))
          | inr (absent, s) ↦
              rw (e, f, g) (start_response-Shown ctx later host req re e s (rw (e, f, g) at said))
        ]
      ]
    ]
  ]

  -- A start that answers 200 announces the rental that the status of its session then shows.
  pub handle_start_rental-Shown :
      (later : Context) (host : String) (r : Request (Option StartBody)) (re : RentalExecutor W P)
      → (handle_start_rental docker pool host r re).0.status ≡ 200
      → Shown later
          (handle_start_rental docker pool host r re).0
          (handle_start_rental docker pool host r re).1
  unfolding handle_start_rental
  handle_start_rental-Shown later host r re = elim (Bool-cases (r.method == "POST")) [
    | inl e ↦ rw e (decoded r.body)
    | inr e ↦ rw e (λ said. absurd (not_allowed said))
  ]
    where
      decoded :
          (body : Option StartBody)
          → (start_decoded docker pool host r.context body re).0.status ≡ 200
          → Shown later
              (start_decoded docker pool host r.context body re).0
              (start_decoded docker pool host r.context body re).1
      decoded none said = absurd (bad_request said)
      decoded (some req) said = start_decoded-Shown r.context later host req re said
