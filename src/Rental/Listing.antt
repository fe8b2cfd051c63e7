-- ===== src/Rental/Listing.antt =====
-- `ListActiveRentals` against `GetRentalStatus` of internal/rental/executor.go, in every history.
use worldland_sdk.Base.{
  ℕ, ◌≡◌, ◌↔◌, refl, String, some, List, [], ◌∷◌, leb, Bool-cases, Option-cases, inl, inr,
  String-eq, arith,
}
use mathlib.Core.List.{Memᴰ}
use worldland_sdk.Go.Errors.{Result, ok, Result-cases}
use worldland_sdk.Go.Context.{Context}
use worldland_sdk.Go.Machine.{Machine}
use worldland_sdk.Go.Map.{lookup, insert}
use worldland_sdk.Rental.{
  RentalState, RentalExecutor, StartRentalRequest, new_rental_executor, start_rental, stop_rental,
  clean_up, get_rental_status, list_active_rentals,
}
use worldland_sdk.Rental.Interfaces.{DockerService, PortPool}
use worldland_sdk.Rental.Start.{Started, failed, running, start_rental-Started}
use worldland_sdk.Rental.History.{
  Event, starts, stops, wakes, passes, step, run, pick, woken, pick-Picked,
}
use worldland_sdk.Rental.Keys.{
  OwnKeys, Once, OwnKeys-insert, OwnKeys-delete, lookup-own, lookup-Mem, Mem-lookup, values-Once,
}

module _ {W P : Type 0} where
  found-lookup :
      (s : String) (state : RentalState) (re : RentalExecutor W P)
      → (get_rental_status s re ≡ ok state) ↔ (lookup s re.active ≡ some state)
  unfolding get_rental_status
  found-lookup s state re = elim (Option-cases (lookup s re.active)) [
    | inl e ↦ rw e ((λ h. ground arith), λ h. ground arith)
    | inr (other, e) ↦ rw e ((λ h. ground arith), λ h. ground arith)
  ]

  listed-found :
      (re : RentalExecutor W P)
      → OwnKeys re.active
      → (state : RentalState)
      → Memᴰ state (list_active_rentals re) ↔ (get_rental_status state.session_id re ≡ ok state)
  unfolding list_active_rentals
  listed-found re k state = (
    (λ listed. (found-lookup _ state re).1 (Mem-lookup state re.active k listed)),
    λ found. lookup-Mem _ state re.active ((found-lookup _ state re).0 found),
  )

module _ {W P : Type 0} (docker : DockerService W) (pool : PortPool P) where
  start-OwnKeys :
      (ctx : Context) (req : StartRentalRequest) (re : RentalExecutor W P)
      → OwnKeys re.active
      → OwnKeys (start_rental docker pool ctx req re).1.active
  start-OwnKeys ctx req re k = elim (start_rental-Started docker pool ctx req re) [
    | inl (dup, e) ↦ rw e k
    | inr (absent, s) ↦ go s
  ]
    where
      go :
          {r : Result _ × RentalExecutor W P}
          → Started docker pool ctx req re r
          → OwnKeys r.1.active
      go (failed e bad same pending holder disposed) = rw same k
      go {r} (running port id good free others new pending healthy) =
          rw new (OwnKeys-insert req.session_id _ re.active refl k)

  stop-OwnKeys :
      (ctx : Context) (s : String) (re : RentalExecutor W P)
      → OwnKeys re.active
      → OwnKeys (stop_rental docker pool ctx s re).1.active
  unfolding stop_rental
  stop-OwnKeys ctx s re k = elim (Option-cases (lookup s re.active)) [
    | inl e ↦ rw e k
    | inr (state, e) ↦
        elim (Result-cases (docker.stop_container ctx state.container_id 10 re.machine).0) [
          | inl (done, good) ↦ rw (e, good) (marked state e)
          | inr (x, bad) ↦ rw (e, bad) (marked state e)
        ]
  ]
    where
      marked :
          (state : RentalState)
          → lookup s re.active ≡ some state
          → OwnKeys (insert s (record state { stopped_at = some re.machine.clock }) re.active)
      marked state e = OwnKeys-insert s _ re.active (lookup-own s state re.active k e) k

  wake-OwnKeys :
      (i : ℕ) (re : RentalExecutor W P)
      → OwnKeys re.active
      → OwnKeys (woken docker pool (pick i re.pending) re).active
  unfolding clean_up
  wake-OwnKeys i re k = elim (pick-Picked i re.pending) [
    | inl e ↦ rw e k
    | inr (c, rest, e, p) ↦ rw e (elim (Bool-cases (leb c.due re.machine.clock)) [
      | inr early ↦ rw early k
      | inl due ↦ rw due (OwnKeys-delete c.session_id re.active k)
    ])
  ]

  step-OwnKeys :
      (re : RentalExecutor W P) (e : Event W)
      → OwnKeys re.active
      → OwnKeys (step docker pool re e).active
  unfolding step
  step-OwnKeys re (passes d world) k = k
  step-OwnKeys re (starts ctx req) k = start-OwnKeys ctx req re k
  step-OwnKeys re (stops ctx s) k = stop-OwnKeys ctx s re k
  step-OwnKeys re (wakes i) k = wake-OwnKeys i re k

  run-OwnKeys :
      (re : RentalExecutor W P) (es : List (Event W))
      → OwnKeys re.active
      → OwnKeys (run docker pool re es).active
  unfolding run
  run-OwnKeys re [] k = k
  run-OwnKeys re (e ∷ es) k = run-OwnKeys (step docker pool re e) es (step-OwnKeys re e k)

  -- In every history of a new executor, whatever its calls return, `ListActiveRentals` lists the
  -- rentals that `GetRentalStatus` finds for their own session, those and no other, and no session
  -- has two of them.
  pub run-listed :
      (m : Machine W) (ports : P) (grace : ℕ) (es : List (Event W))
      → ((state : RentalState)
          → Memᴰ state
              (list_active_rentals (run docker pool (new_rental_executor m ports grace) es))
            ↔ (get_rental_status state.session_id
                  (run docker pool (new_rental_executor m ports grace) es)
                ≡ ok state))
        × Once (list_active_rentals (run docker pool (new_rental_executor m ports grace) es))
  unfolding new_rental_executor list_active_rentals get_rental_status
  run-listed m ports grace es =
      let after = run docker pool (new_rental_executor m ports grace) es in
      let k : OwnKeys after.active = run-OwnKeys (new_rental_executor m ports grace) es tt in
      ((λ state. listed-found after k state), values-Once after.active k)
