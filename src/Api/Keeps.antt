-- ===== src/Api/Keeps.antt =====
-- What the handlers of internal/api/handler.go keep: the invariant of the executor.
use worldland_sdk.Base.{
  String, Option, none, some, All, IfAny, ◌==◌, String-eq, Bool-cases, inl, inr,
}
use worldland_sdk.Go.Errors.{Result, ok, err}
use worldland_sdk.Go.Context.{Context}
use worldland_sdk.Rental.{RentalExecutor, ConnectionInfo, start_rental, stop_rental}
use worldland_sdk.Rental.Interfaces.{DockerService, PortPool}
use worldland_sdk.Rental.History.{IsConsistent, start-IsConsistent, stop-IsConsistent}
use worldland_sdk.Rental.Pending.{OtherSession}
use worldland_sdk.Api.{
  Request, StartBody, handle_start_rental, handle_stop_rental, start_decoded, stop_decoded,
  start_response, stop_response, rental_request,
}

module _ {W P : Type 0} (docker : DockerService W) (pool : PortPool P) where
  start_response-IsConsistent :
      (session_id : String) (r : Result ConnectionInfo) (re : RentalExecutor W P)
      → IsConsistent docker pool re
      → IsConsistent docker pool (start_response docker pool session_id (r, re)).1
  start_response-IsConsistent session_id (ok info) re v = v
  start_response-IsConsistent session_id (err e) re v = v

  stop_response-IsConsistent :
      (session_id : String) (r : Result (Unit {0})) (re : RentalExecutor W P)
      → IsConsistent docker pool re
      → IsConsistent docker pool (stop_response docker pool session_id (r, re)).1
  stop_response-IsConsistent session_id (ok done) re v = v
  stop_response-IsConsistent session_id (err e) re v = v

  start_decoded-IsConsistent :
      (host : String) (ctx : Context) (body : Option StartBody) (re : RentalExecutor W P)
      → IsConsistent docker pool re
      → IsConsistent docker pool (start_decoded docker pool host ctx body re).1
  start_decoded-IsConsistent host ctx none re v = v
  start_decoded-IsConsistent host ctx (some req) re v =
      let r = start_rental docker pool ctx (rental_request host req) re in
      elim (Bool-cases (req.session_id == "")) [
        | inl e ↦ simp e v
        | inr e ↦ elim (Bool-cases (req.gpu_device_id == "")) [
          | inl f ↦ simp (e, f) v
          | inr f ↦ elim (Bool-cases (req.ssh_password == "")) [
            | inl g ↦ simp (e, f, g) v
            | inr g ↦
                simp (e, f, g)
                  (start_response-IsConsistent req.session_id r.0 r.1
                    (start-IsConsistent docker pool ctx (rental_request host req) re v))
          ]
        ]
      ]

  stop_decoded-IsConsistent :
      (ctx : Context) (body : Option String) (re : RentalExecutor W P)
      → IfAny (λ s. All (OtherSession s) re.pending) body
      → IsConsistent docker pool re
      → IsConsistent docker pool (stop_decoded docker pool ctx body re).1
  stop_decoded-IsConsistent ctx none re first v = v
  stop_decoded-IsConsistent ctx (some session_id) re first v =
      let r = stop_rental docker pool ctx session_id re in
      elim (Bool-cases (session_id == "")) [
        | inl e ↦ simp e v
        | inr e ↦ simp e (
            stop_response-IsConsistent session_id r.0 r.1
              (stop-IsConsistent docker pool ctx session_id re first v))
      ]

  pub handle_start-IsConsistent :
      (host : String) (r : Request (Option StartBody)) (re : RentalExecutor W P)
      → IsConsistent docker pool re
      → IsConsistent docker pool (handle_start_rental docker pool host r re).1
  unfolding handle_start_rental
  handle_start-IsConsistent host r re v = elim (Bool-cases (r.method == "POST")) [
    | inr e ↦ simp e v
    | inl e ↦ simp e (start_decoded-IsConsistent host r.context r.body re v)
  ]

  pub handle_stop-IsConsistent :
      (r : Request (Option String)) (re : RentalExecutor W P)
      → IfAny (λ s. All (OtherSession s) re.pending) r.body
      → IsConsistent docker pool re
      → IsConsistent docker pool (handle_stop_rental docker pool r re).1
  unfolding handle_stop_rental
  handle_stop-IsConsistent r re first v = elim (Bool-cases (r.method == "POST")) [
    | inr e ↦ simp e v
    | inl e ↦ simp e (stop_decoded-IsConsistent r.context r.body re first v)
  ]
