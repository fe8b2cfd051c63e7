-- ===== src/Rental/Threads.antt =====
-- Calls of internal/rental/executor.go that overlap: `StartRental` and `StopRental` between their
-- accesses to what they share, a section at a time and in any order. A stop that has stopped its
-- container goes on as the goroutine of `scheduleCleanup`. A failed section of a start gives back its
-- container and its port with it, and a cleanup does so in one section before it forgets the rental.
pub mod Alone
pub mod Sections
pub mod Safety
use worldland_sdk.Base.{
  ℕ, ◌+◌, ◌≡◌, ◌≢◌, String, Bool, true, false, Option, none, some, is_some, leb, if◌then◌else◌,
  String-eq,
}
use worldland_sdk.Go.Errors.{
  GoError, sentinel, wrap, session_already_active, session_not_found, Result, ok, err, wrapping,
}
use worldland_sdk.Go.Context.{Context}
use worldland_sdk.Go.Map.{lookup, delete}
use worldland_sdk.Rental.{
  RentalState, RentalExecutor, StartRentalRequest, ConnectionInfo, Cleanup, allocate_port, create,
  start, await_health, track, mark_stopped, on_machine, release_port, drop_container,
}
use worldland_sdk.Rental.Interfaces.{DockerService, PortPool}
use worldland_sdk.Rental.Claims.{Claim, no_claim, launches, retires, forgets, retiring, update}

-- Where a call stands, with its local variables.
pub data Call : Type 0 where
  idle : Call
  asked checked : Context → StartRentalRequest → Call
  port_taken : Context → StartRentalRequest → ℕ → Call
  created started healthy : Context → StartRentalRequest → ℕ → String → Call
  start_returned : Result ConnectionInfo → Call
  stop_asked : Context → String → Call
  stopping : Context → String → RentalState → Call
  stop_failed : GoError → Call
  cleaning : Cleanup → Call
  port_returned : String → Call
  cleaned : Call

abbrev pub is_over : Call → Bool
is_over idle = true
is_over (start_returned r) = true
is_over (stop_failed e) = true
is_over cleaned = true
is_over _ = false

abbrev pub claim_of : Call → Claim
claim_of (port_taken ctx req port) = launches port req.session_id
claim_of (created ctx req port id) = launches port req.session_id
claim_of (started ctx req port id) = launches port req.session_id
claim_of (healthy ctx req port id) = launches port req.session_id
claim_of (stopping ctx s state) = retires state.ssh_port s
claim_of (cleaning c) = retires c.ssh_port c.session_id
claim_of (port_returned s) = forgets s
claim_of _ = no_claim

module _ {W P : Type 0} (docker : DockerService W) (pool : PortPool P) where
  abbrev pub Turn : Type 0
  Turn = Call × RentalExecutor W P

  -- A section that leads on with its result, or ends the start with its error.
  abbrev pub leads : {A : Type 0} → (A → Call) → Result A × RentalExecutor W P → Turn
  leads next (ok a, re) = (next a, re)
  leads next (err e, re) = (start_returned (err e), re)

  abbrev pub check : Context → StartRentalRequest → RentalExecutor W P → Turn
  check ctx req re =
      if is_some (lookup req.session_id re.active)
      then (start_returned (err (sentinel session_already_active)), re)
      else (checked ctx req, re)

  abbrev pub tracked : Result ConnectionInfo × RentalExecutor W P → Turn
  tracked (r, re) = (start_returned r, re)

  abbrev pub mark : Context → String → Option RentalState → RentalExecutor W P → Turn
  mark ctx s none re = (stop_failed (sentinel session_not_found), re)
  mark ctx s (some state) re = (stopping ctx s state, mark_stopped docker pool s state re)

  -- go re.scheduleCleanup(…), where the container was stopped
  abbrev pub settle : String → RentalState → Result (Unit {0}) × RentalExecutor W P → Turn
  settle s state (err e, re) = (stop_failed (wrap "failed to stop container" e), re)
  settle s state (ok done, re) = (
    cleaning (record {
      due = re.machine.clock + re.grace_period;
      session_id = s;
      container_id = state.container_id;
      ssh_port = state.ssh_port;
    }),
    re,
  )

  abbrev pub wake : Cleanup → RentalExecutor W P → Turn
  wake c re =
      if leb c.due re.machine.clock
      then (
        port_returned c.session_id,
        release_port docker pool c.ssh_port (drop_container docker pool c.container_id re),
      )
      else (cleaning c, re)

  abbrev pub forget : String → RentalExecutor W P → Turn
  forget s re = (cleaned, record re { active = delete s re.active })

  -- The next section of a call.
  unfoldable pub advance : Call → RentalExecutor W P → Turn
  advance (asked ctx req) re = check ctx req re
  advance (checked ctx req) re =
      leads (port_taken ctx req)
        (wrapping "failed to allocate port" (allocate_port docker pool req.session_id re))
  advance (port_taken ctx req port) re =
      leads (created ctx req port) (create docker pool ctx req port re)
  advance (created ctx req port id) re =
      leads (λ done. started ctx req port id) (start docker pool ctx port id re)
  advance (started ctx req port id) re =
      leads (λ done. healthy ctx req port id) (await_health docker pool ctx port id re)
  advance (healthy ctx req port id) re = tracked (track docker pool req port id re)
  advance (stop_asked ctx s) re = mark ctx s (lookup s re.active) re
  advance (stopping ctx s state) re =
      settle s state (on_machine docker pool (docker.stop_container ctx state.container_id 10) re)
  advance (cleaning c) re = wake c re
  advance (port_returned s) re = forget s re
  advance call re = (call, re)

  -- The executor with its calls, by number.
  pub record Busy : Type 0 where
    pub executor : RentalExecutor W P
    pub calls : ℕ → Call

  abbrev put : ℕ → (ℕ → Call) → Turn → Busy
  put i calls (call, re) = record { executor = re; calls = update calls i call }

  unfoldable pub go_on : ℕ → Busy → Busy
  go_on i b = put i b.calls (advance (b.calls i) b.executor)

  -- A stop that is about to mark its rental is the only one of its session.
  abbrev pub StopsAlone : ℕ → Busy → Type 0
  StopsAlone i b =
      (ctx : Context) (s : String)
      → b.calls i ≡ stop_asked ctx s
      → (j : ℕ) → retiring (claim_of (b.calls j)) ≢ some s

  pub data Step (b : Busy) : Busy → Type 0 where
    begins_start :
        (i : ℕ) (ctx : Context) (req : StartRentalRequest)
        → is_over (b.calls i) ≡ true
        → Step b (record b { calls = update b.calls i (asked ctx req) })
    begins_stop :
        (i : ℕ) (ctx : Context) (s : String)
        → is_over (b.calls i) ≡ true
        → Step b (record b { calls = update b.calls i (stop_asked ctx s) })
    goes_on : (i : ℕ) → Step b (go_on i b)
    passes :
        (d : ℕ) (world : W)
        → Step b (record b {
          executor = record b.executor {
            machine = record { clock = b.executor.machine.clock + d; world = world };
          };
        })

  pub data Reach (b : Busy) : Busy → Type 0 where
    here : Reach b b
    later : {b' b'' : Busy} → Reach b b' → Step b' b'' → Reach b b''

  abbrev pub StopsFirst : {b b' : Busy} → Step b b' → Type 0
  StopsFirst {b} (goes_on i) = StopsAlone i b
  StopsFirst _ = Unit {0}

  -- No session is stopped while another call is stopping it or has yet to clean it up.
  abbrev pub StopsApart : {b b' : Busy} → Reach b b' → Type 0
  StopsApart here = Unit {0}
  StopsApart (later r s) = StopsApart r × StopsFirst s

  -- The executor while nobody calls it.
  abbrev pub at_rest : RentalExecutor W P → Busy
  at_rest re = record { executor = re; calls = λ i. idle }
