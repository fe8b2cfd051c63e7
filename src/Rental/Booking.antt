-- ===== src/Rental/Booking.antt =====
-- The contract of internal/rental/executor.go, without containers, time and cleanups: a table of
-- bookings, in which a session has at most one port and a port at most one session.
use worldland_sdk.Base.{
  ℕ, ◌≡◌, ◌≢◌, refl, ap, ◌∙◌, String, Option, none, some, List, [], ◌∷◌, if◌then◌else◌, ◌==◌,
  String-eq, text_iff, Bool-cases, leb, inl, inr, arith,
}
use worldland_sdk.Go.Errors.{Result, Result-cases}
use worldland_sdk.Go.Context.{Context}
use worldland_sdk.Go.Map.{Map, lookup, insert, delete, lookup-insert, lookup-delete}
use worldland_sdk.Rental.{
  RentalState, RentalExecutor, StartRentalRequest, start_rental, stop_rental, stop_found, clean_up,
}
use worldland_sdk.Rental.Interfaces.{DockerService, PortPool}
use worldland_sdk.Rental.Start.{Started, failed, running, start_rental-Started}
use worldland_sdk.Rental.History.{
  Event, starts, stops, wakes, passes, step, run, woken, pick, pick-Picked, IsConsistent, StopsOnce,
  step-IsConsistent,
}

-- Which port each session has.
abbrev pub Bookings : Type 0
Bookings = String → Option ℕ

-- What an event may do to the table: a start gives its session, if it has no port, one that nobody
-- has; a cleanup that wakes up takes a session's port away; any event may change nothing.
pub data Moves {W : Type 0} (v v' : Bookings) : Event W → Type 0 where
  stays : {e : Event W} → ((s : String) → v' s ≡ v s) → Moves v v' e
  books :
      {ctx : Context} {req : StartRentalRequest} (port : ℕ)
      → v req.session_id ≡ none
      → ((s : String) → v s ≢ some port)
      → ((s : String) → v' s ≡ (if req.session_id == s then some port else v s))
      → Moves v v' (starts ctx req)
  frees :
      {i : ℕ} (session_id : String)
      → ((s : String) → v' s ≡ (if session_id == s then none else v s))
      → Moves v v' (wakes i)

pub data Plays {W : Type 0} : Bookings → List (Event W) → Bookings → Type 0 where
  ends : {v : Bookings} → Plays v [] v
  plays :
      {e : Event W} {es : List (Event W)} {v v' v'' : Bookings}
      → Moves v v' e
      → Plays v' es v''
      → Plays v (e ∷ es) v''

abbrev pub port_of : Option RentalState → Option ℕ
port_of none = none
port_of (some state) = some state.ssh_port

-- The table that the executor keeps.
abbrev pub bookings : {W P : Type 0} → RentalExecutor W P → Bookings
bookings re s = port_of (lookup s re.active)

booked-insert :
    (session_id s : String) (state : RentalState) (active : Map String RentalState)
    → port_of (lookup s (insert session_id state active))
      ≡ (if session_id == s then some state.ssh_port else port_of (lookup s active))
booked-insert session_id s state active = ground (arith, lookup-insert session_id s state active)

booked-delete :
    (session_id s : String) (active : Map String RentalState)
    → port_of (lookup s (delete session_id active))
      ≡ (if session_id == s then none else port_of (lookup s active))
booked-delete session_id s active = ground (arith, lookup-delete session_id s active)

-- A rental that keeps its port keeps its booking.
booked-same :
    (session_id s : String) (state state' : RentalState) (active : Map String RentalState)
    → lookup session_id active ≡ some state
    → state'.ssh_port ≡ state.ssh_port
    → port_of (lookup s (insert session_id state' active)) ≡ port_of (lookup s active)
booked-same session_id s state state' active at same =
    ground (arith, booked-insert session_id s state' active, text_iff session_id s)

module _ {W P : Type 0} (docker : DockerService W) (pool : PortPool P) where
  start-Moves :
      (ctx : Context) (req : StartRentalRequest) (re : RentalExecutor W P)
      → IsConsistent docker pool re
      → Moves {W = W}
          (bookings re)
          (bookings (start_rental docker pool ctx req re).1)
          (starts ctx req)
  start-Moves ctx req re v = elim (start_rental-Started docker pool ctx req re) [
    | inl (dup, e) ↦ stays (λ s. ap (λ (r : Result _ × RentalExecutor W P). bookings r.1 s) e)
    | inr (absent, s) ↦ go absent s
  ]
    where
      not_taken :
          (port : ℕ) (s : String) (o : Option RentalState)
          → lookup s re.active ≡ o
          → pool.holder re.ports port ≡ none
          → port_of o ≢ some port
      not_taken port s none at free e = ground (arith, e)
      not_taken port s (some state) at free e = ground (arith, v.holds_port s state at, e)

      go :
          {r : Result _ × RentalExecutor W P}
          → lookup req.session_id re.active ≡ none
          → Started docker pool ctx req re r
          → Moves {W = W} (bookings re) (bookings r.1) (starts ctx req)
      go absent (failed e re_err same_active same_pending same_holder disposed) =
          stays (λ s. ap (λ active. port_of (lookup s active)) same_active)
      go {r} absent (running port id good free others new same_pending healthy) =
          books port (rw absent refl) (λ s. not_taken port s (lookup s re.active) refl free)
            (λ s.
              ap (λ active. port_of (lookup s active)) new
              ∙ booked-insert req.session_id s _ re.active)

  stop-Moves :
      (ctx : Context) (session_id : String) (re : RentalExecutor W P)
      → Moves {W = W}
          (bookings re)
          (bookings (stop_rental docker pool ctx session_id re).1)
          (stops ctx session_id)
  unfolding stop_rental
  stop-Moves ctx session_id re = go (lookup session_id re.active) refl
    where
      go :
          (found : Option RentalState)
          → lookup session_id re.active ≡ found
          → Moves {W = W}
              (bookings re)
              (bookings (stop_found docker pool ctx session_id found re).1)
              (stops ctx session_id)
      go none e = stays (λ s. refl)
      go (some state) e =
          elim (Result-cases (docker.stop_container ctx state.container_id 10 re.machine).0) [
            | inr (x, bad) ↦ rw bad (stays (λ s. booked-same session_id s state _ re.active e refl))
            | inl (done, good) ↦
                rw good (stays (λ s. booked-same session_id s state _ re.active e refl))
          ]

  wake-Moves :
      (i : ℕ) (re : RentalExecutor W P)
      → Moves {W = W} (bookings re) (bookings (woken docker pool (pick i re.pending) re)) (wakes i)
  unfolding clean_up
  wake-Moves i re = elim (pick-Picked i re.pending) [
    | inl e ↦ rw e (stays (λ s. refl))
    | inr (c, rest, e, p) ↦ rw e (elim (Bool-cases (leb c.due re.machine.clock)) [
      | inr early ↦ rw early (stays (λ s. refl))
      | inl due ↦ rw due (frees c.session_id (λ s. booked-delete c.session_id s re.active))
    ])
  ]

  step-Moves :
      (re : RentalExecutor W P) (e : Event W)
      → IsConsistent docker pool re
      → Moves {W = W} (bookings re) (bookings (step docker pool re e)) e
  unfolding step
  step-Moves re (starts ctx req) v = start-Moves ctx req re v
  step-Moves re (stops ctx session_id) v = stop-Moves ctx session_id re
  step-Moves re (wakes i) v = wake-Moves i re
  step-Moves re (passes d world) v = stays (λ s. refl)

  -- The executor implements the table of bookings: in every history of a consistent one, in which no
  -- session is stopped again while its cleanup is under way, a start can only give its session a port,
  -- where it has none, that nobody has, a cleanup that wakes up can only take a session's port away,
  -- and nothing else changes who has which port.
  pub run-Plays :
      (re : RentalExecutor W P) (es : List (Event W))
      → StopsOnce docker pool re es
      → IsConsistent docker pool re
      → Plays (bookings re) es (bookings (run docker pool re es))
  unfolding run
  run-Plays re [] f v = ends
  run-Plays re (e ∷ es) f v =
      plays (step-Moves re e v)
        (run-Plays (step docker pool re e) es f.1 (step-IsConsistent docker pool re e f.0 v))
