-- ===== src/Rental/History.antt =====
-- Histories of internal/rental/executor.go: calls, wake-ups of cleanups and the passing of time in
-- any order, and the invariant that they keep.
use worldland_sdk.Base.{
  ℕ, zero, suc, ◌+◌, ◌≡◌, refl, String, Option, none, some, List, [], ◌∷◌, All, leb, if◌then◌else◌,
  Bool-cases, inl, inr, ◌⊎◌, ℕ-eq, String-eq, text_iff, arith,
}
use worldland_sdk.Go.Errors.{Result, Result-cases}
use worldland_sdk.Go.Context.{Context}
use worldland_sdk.Go.Map.{lookup, lookup-insert}
use worldland_sdk.Go.Machine.{Machine}
use worldland_sdk.Rental.{
  RentalState, RentalExecutor, StartRentalRequest, Cleanup, new_rental_executor, start_rental,
  stop_rental, stop_found, mark_stopped, clean_up,
}
use worldland_sdk.Rental.Interfaces.{DockerService, PortPool}
use worldland_sdk.Rental.Start.{Started, failed, running, start_rental-Started, started_state}
use worldland_sdk.Rental.Invariant.{Inv, Inv-holder, Inv-start, Inv-mark, Inv-schedule, Inv-clean}
use worldland_sdk.Rental.Pending.{OtherSession, Picked, here, there}

-- What can happen to the executor. `passes` lets time go by while the outside becomes any `world`.
pub data Event (W : Type 0) : Type 0 where
  starts : Context → StartRentalRequest → Event W
  stops : Context → String → Event W
  wakes : ℕ → Event W
  passes : ℕ → W → Event W

pub pick_behind : Cleanup → Option (Cleanup × List Cleanup) → Option (Cleanup × List Cleanup)
pick_behind d none = none
pick_behind d (some (c, rest)) = some (c, d ∷ rest)

-- The `i`-th sleeping cleanup, and the others.
unfoldable pub pick : ℕ → List Cleanup → Option (Cleanup × List Cleanup)
unfolding pick_behind
pick i [] = none
pick zero (c ∷ cs) = some (c, cs)
pick (suc i) (c ∷ cs) = pick_behind c (pick i cs)

pub pick-Picked :
    (i : ℕ) (cs : List Cleanup)
    → (pick i cs ≡ none)
      ⊎ ((c : Cleanup) × (rest : List Cleanup) × (pick i cs ≡ some (c, rest)) × Picked c cs rest)
unfolding pick
pick-Picked i [] = inl refl
pick-Picked zero (c ∷ cs) = inr (c, cs, refl, here)
pick-Picked (suc i) (d ∷ cs) = elim (pick-Picked i cs) [
  | inl e ↦ inl (rw e)
  | inr (c, rest, e, p) ↦ inr (c, d ∷ rest, rw e, there p)
]

module _ {W P : Type 0} (docker : DockerService W) (pool : PortPool P) where
  -- A cleanup runs once its time has come.
  abbrev pub woken : Option (Cleanup × List Cleanup) → RentalExecutor W P → RentalExecutor W P
  woken none re = re
  woken (some (c, rest)) re =
      if leb c.due re.machine.clock
      then clean_up docker pool c (record re { pending = rest })
      else re

  unfoldable pub step : RentalExecutor W P → Event W → RentalExecutor W P
  step re (starts ctx req) = (start_rental docker pool ctx req re).1
  step re (stops ctx session_id) = (stop_rental docker pool ctx session_id re).1
  step re (wakes i) = woken (pick i re.pending) re
  step re (passes d world) = record re {
    machine = record { clock = re.machine.clock + d; world = world };
  }

  unfoldable pub run : RentalExecutor W P → List (Event W) → RentalExecutor W P
  run re [] = re
  run re (e ∷ es) = run (step re e) es

  -- A session whose cleanup is under way is not stopped once more.
  abbrev pub IsFirstStop : RentalExecutor W P → Event W → Type 0
  IsFirstStop re (stops ctx session_id) = All (OtherSession session_id) re.pending
  IsFirstStop re (starts ctx req) = Unit {0}
  IsFirstStop re (wakes i) = Unit {0}
  IsFirstStop re (passes d world) = Unit {0}

  abbrev pub StopsOnce : RentalExecutor W P → List (Event W) → Type 0
  StopsOnce re [] = Unit {0}
  StopsOnce re (e ∷ es) = IsFirstStop re e × StopsOnce (step re e) es

  abbrev pub IsConsistent : RentalExecutor W P → Type 0
  IsConsistent re = Inv (pool.holder re.ports) re.active re.pending

  pub start-IsConsistent :
      (ctx : Context) (req : StartRentalRequest) (re : RentalExecutor W P)
      → IsConsistent re
      → IsConsistent (start_rental docker pool ctx req re).1
  start-IsConsistent ctx req re v = elim (start_rental-Started docker pool ctx req re) [
    | inl (dup, e) ↦ rw e v
    | inr (absent, s) ↦ go absent s
  ]
    where
      go :
          {r : Result _ × RentalExecutor W P}
          → lookup req.session_id re.active ≡ none
          → Started docker pool ctx req re r
          → IsConsistent r.1
      go absent (failed e re_err same_active same_pending same_holder disposed) =
          rw (same_active, same_pending) (Inv-holder _ _ _ _ same_holder v)
      go {r} absent (running port id res free others new same_pending healthy) =
          rw (new, same_pending)
            (Inv-start _ _ _ _ (started_state req port id r.1.machine.clock) absent free others v)

  pub stop-IsConsistent :
      (ctx : Context) (session_id : String) (re : RentalExecutor W P)
      → All (OtherSession session_id) re.pending
      → IsConsistent re
      → IsConsistent (stop_rental docker pool ctx session_id re).1
  unfolding stop_rental
  stop-IsConsistent ctx session_id re first v = go (lookup session_id re.active) refl
    where
      marked :
          (state : RentalState)
          → lookup session_id re.active ≡ some state
          → IsConsistent (mark_stopped docker pool session_id state re)
      marked state e = Inv-mark _ _ _ session_id state _ e refl refl refl v

      go :
          (found : Option RentalState)
          → lookup session_id re.active ≡ found
          → IsConsistent (stop_found docker pool ctx session_id found re).1
      go none e = v
      go (some state) e =
          elim (Result-cases (docker.stop_container ctx state.container_id 10 re.machine).0) [
            | inr (x, bad) ↦ rw bad (marked state e)
            | inl (done, good) ↦ rw good (
                Inv-schedule _ _ _ _
                  (record {
                    state = record state { stopped_at = some re.machine.clock };
                    tracked = ground (
                      arith,
                      text_iff session_id session_id,
                      lookup-insert session_id session_id
                          (record state { stopped_at = some re.machine.clock }) re.active,
                    );
                    same_container = refl;
                    same_port = refl;
                  })
                  first (marked state e))
          ]

  pub wake-IsConsistent :
      (i : ℕ) (re : RentalExecutor W P)
      → IsConsistent re
      → IsConsistent (woken (pick i re.pending) re)
  unfolding clean_up
  wake-IsConsistent i re v = elim (pick-Picked i re.pending) [
    | inl e ↦ rw e v
    | inr (c, rest, e, p) ↦ rw e (elim (Bool-cases (leb c.due re.machine.clock)) [
      | inr early ↦ rw early v
      | inl due ↦
          rw due (Inv-clean _ _ _ _ rest c p (λ q. pool.holder-release _ c.ssh_port q re.ports) v)
    ])
  ]

  pub step-IsConsistent :
      (re : RentalExecutor W P) (e : Event W)
      → IsFirstStop re e
      → IsConsistent re
      → IsConsistent (step re e)
  unfolding step
  step-IsConsistent re (starts ctx req) f v = start-IsConsistent ctx req re v
  step-IsConsistent re (stops ctx session_id) f v = stop-IsConsistent ctx session_id re f v
  step-IsConsistent re (wakes i) f v = wake-IsConsistent i re v
  step-IsConsistent re (passes d world) f v = v

  -- A consistent executor stays consistent in every history in which no session is stopped again
  -- while its cleanup is under way: each tracked rental stands under its own session, which holds
  -- its port, each scheduled cleanup is for the rental that is tracked, and no session has two.
  pub run-IsConsistent :
      (re : RentalExecutor W P) (es : List (Event W))
      → StopsOnce re es
      → IsConsistent re
      → IsConsistent (run re es)
  unfolding run
  run-IsConsistent re [] f v = v
  run-IsConsistent re (e ∷ es) f v =
      run-IsConsistent (step re e) es f.1 (step-IsConsistent re e f.0 v)

  -- A new executor tracks nothing.
  pub new-IsConsistent :
      (machine : Machine W) (ports : P) (grace : ℕ)
      → IsConsistent (new_rental_executor machine ports grace)
  unfolding new_rental_executor
  new-IsConsistent machine ports grace = record {
    own_session = λ s t h. absurd (none_tracked s h);
    holds_port = λ s t h. absurd (none_tracked s h);
    current = tt;
    distinct = tt;
  }
    where
      none_tracked : (s : String) {t : RentalState} → lookup s [] ≡ some t → ⊥
      none_tracked s h = unfold lookup in cc

  -- In every history of a new executor in which no session is stopped again while its cleanup is
  -- under way, no two sessions are tracked on one port.
  pub run-ports_distinct :
      (machine : Machine W) (ports : P) (grace : ℕ) (es : List (Event W)) (s s' : String)
      (state state' : RentalState)
      → StopsOnce (new_rental_executor machine ports grace) es
      → lookup s (run (new_rental_executor machine ports grace) es).active ≡ some state
      → lookup s' (run (new_rental_executor machine ports grace) es).active ≡ some state'
      → state.ssh_port ≡ state'.ssh_port
      → s ≡ s'
  run-ports_distinct machine ports grace es s s' state state' f h h' same =
      let v = run-IsConsistent _ es f (new-IsConsistent machine ports grace) in
      ground (arith, v.holds_port s state h, v.holds_port s' state' h')
