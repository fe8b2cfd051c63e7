-- ===== src/Rental/Stop.antt =====
-- `StopRental` of internal/rental/executor.go on every branch.
use worldland_sdk.Base.{◌+◌, ◌≡◌, refl, String, Option, none, some, [], ◌∷◌, ◌++◌, ℕ-eq, String-eq}
use worldland_sdk.Go.Errors.{GoError, sentinel, wrap, session_not_found, Result, ok, err}
use worldland_sdk.Go.Context.{Context}
use worldland_sdk.Go.Map.{lookup, insert}
use worldland_sdk.Go.Machine.{Machine}
use worldland_sdk.Rental.{RentalState, RentalExecutor, stop_rental, stop_found}
use worldland_sdk.Rental.Interfaces.{DockerService, PortPool}

module _ {W P : Type 0} (docker : DockerService W) (pool : PortPool P) where
  -- The outcomes of a stop in the state `re`.
  pub data Stopped (ctx : Context) (session_id : String) (re : RentalExecutor W P)
      (r : Result (Unit {0}) × RentalExecutor W P) : Type 0 where
    unknown :
        lookup session_id re.active ≡ none
        → r ≡ (err (sentinel session_not_found), re)
        → Stopped ctx session_id re r
    not_stopped :
        (state : RentalState) (e : GoError) (m : Machine W)
        → lookup session_id re.active ≡ some state
        → docker.stop_container ctx state.container_id 10 re.machine ≡ (err e, m)
        → r ≡ (
          err (wrap "failed to stop container" e),
          record re {
            machine = m;
            active =
                insert session_id (record state { stopped_at = some re.machine.clock }) re.active;
          },
        )
        → Stopped ctx session_id re r
    stopping :
        (state : RentalState) (m : Machine W)
        → lookup session_id re.active ≡ some state
        → docker.stop_container ctx state.container_id 10 re.machine ≡ (ok tt, m)
        → r ≡ (
          ok tt,
          record re {
            machine = m;
            active =
                insert session_id (record state { stopped_at = some re.machine.clock }) re.active;
            pending =
                re.pending
                ++ record {
                  due = m.clock + re.grace_period;
                  session_id = session_id;
                  container_id = state.container_id;
                  ssh_port = state.ssh_port;
                }
                  ∷ [];
          },
        )
        → Stopped ctx session_id re r

  -- A stop of an unknown session changes nothing; else the rental is marked as stopped, and its
  -- cleanup is scheduled for the end of the grace period exactly if the container stopped.
  pub stop_rental-Stopped :
      (ctx : Context) (session_id : String) (re : RentalExecutor W P)
      → Stopped ctx session_id re (stop_rental docker pool ctx session_id re)
  unfolding stop_rental
  stop_rental-Stopped ctx session_id re = go (lookup session_id re.active) refl
    where
      after :
          (state : RentalState) (x : Result (Unit {0}) × Machine W)
          → lookup session_id re.active ≡ some state
          → docker.stop_container ctx state.container_id 10 re.machine ≡ x
          → Stopped ctx session_id re (stop_found docker pool ctx session_id (some state) re)
      after state (ok tt, m) e h = rw h (stopping state m e h refl)
      after state (err x, m) e h = rw h (not_stopped state x m e h refl)

      go :
          (found : Option RentalState)
          → lookup session_id re.active ≡ found
          → Stopped ctx session_id re (stop_found docker pool ctx session_id found re)
      go none e = unknown e refl
      go (some state) e = after state _ e refl
