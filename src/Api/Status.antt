-- ===== src/Api/Status.antt =====
-- The status codes of internal/api/handler.go.
use worldland_sdk.Base.{
  ◌≡◌, refl, ◌⊎◌, inl, inr, String, Bool, true, false, not, ◌&&◌, Option, none, some, ◌==◌,
  String-eq, ℕ-eq, Bool-cases,
}
use worldland_sdk.Go.Errors.{
  session_already_active, container_not_healthy, errors_is, Result, ok, err,
}
use worldland_sdk.Go.Context.{Context}
use worldland_sdk.Rental.{RentalExecutor, ConnectionInfo, start_rental}
use worldland_sdk.Rental.Interfaces.{DockerService, PortPool}
use worldland_sdk.Api.{
  Request, Response, StartBody, handle_start_rental, start_decoded, start_response, rental_request,
}

abbrev is_complete : Option StartBody → Bool
is_complete none = false
is_complete (some req) =
    not (req.session_id == "") && not (req.gpu_device_id == "") && not (req.ssh_password == "")

-- POST, with a body that decodes and has its three required fields.
abbrev pub is_valid : Request (Option StartBody) → Bool
is_valid r = r.method == "POST" && is_complete r.body

-- The ways in which a start is answered.
pub data Answered {X : Type 0} (valid : Bool) (before : X) (r : Response × X) : Type 0 where
  rejected :
      valid ≡ false
      → (r.0.status ≡ 400) ⊎ (r.0.status ≡ 405)
      → r.1 ≡ before
      → Answered valid before r
  started : valid ≡ true → r.0.status ≡ 200 → Answered valid before r
  conflict : valid ≡ true → r.0.status ≡ 409 → Answered valid before r
  not_ready : valid ≡ true → r.0.status ≡ 503 → Answered valid before r
  failed : valid ≡ true → r.0.status ≡ 500 → Answered valid before r

module _ {W P : Type 0} (docker : DockerService W) (pool : PortPool P) where
  start_response-Answered :
      (session_id : String) (re : RentalExecutor W P)
      (x : Result ConnectionInfo × RentalExecutor W P)
      → Answered true re (start_response docker pool session_id x)
  start_response-Answered session_id re (ok info, re') = started refl refl
  start_response-Answered session_id re (err e, re') =
      elim (Bool-cases (errors_is e session_already_active)) [
        | inl a ↦ conflict refl (rw a)
        | inr a ↦ elim (Bool-cases (errors_is e container_not_healthy)) [
          | inl b ↦ not_ready refl (rw (a, b))
          | inr b ↦ failed refl (rw (a, b))
        ]
      ]

  start_decoded-Answered :
      (host : String) (ctx : Context) (body : Option StartBody) (re : RentalExecutor W P)
      → Answered (is_complete body) re (start_decoded docker pool host ctx body re)
  start_decoded-Answered host ctx none re = rejected refl (inl refl) refl
  start_decoded-Answered host ctx (some req) re = elim (Bool-cases (req.session_id == "")) [
    | inl e ↦ rw e (rejected refl (inl refl) refl)
    | inr e ↦ rw e (elim (Bool-cases (req.gpu_device_id == "")) [
      | inl f ↦ rw f (rejected refl (inl refl) refl)
      | inr f ↦ rw f (elim (Bool-cases (req.ssh_password == "")) [
        | inl g ↦ rw g (rejected refl (inl refl) refl)
        | inr g ↦ rw g (
            start_response-Answered req.session_id re
              (start_rental docker pool ctx (rental_request host req) re))
      ])
    ])
  ]

  -- A request that is no complete POST is answered with 400 or 405 and leaves the executor alone;
  -- every other is answered with 200, 409, 500 or 503.
  pub handle_start_rental-Answered :
      (host : String) (r : Request (Option StartBody)) (re : RentalExecutor W P)
      → Answered (is_valid r) re (handle_start_rental docker pool host r re)
  unfolding handle_start_rental
  handle_start_rental-Answered host r re = elim (Bool-cases (r.method == "POST")) [
    | inl e ↦ rw e (start_decoded-Answered host r.context r.body re)
    | inr e ↦ rw e (rejected refl (inr refl) refl)
  ]
