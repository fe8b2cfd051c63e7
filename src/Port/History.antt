-- ===== src/Port/History.antt =====
-- Sequences of calls to `PortManager` of internal/port/manager.go: what no history can do.
use worldland_sdk.Base.{ℕ, String, ◌≡◌, ◌≢◌, some, arith, ℕ-eq, nat_eq_iff, List, [], ◌∷◌, All}
use worldland_sdk.Port.{PortManager, allocate, release}
use worldland_sdk.Port.Lease.{holder, leased, refused, allocate-Leased, holder-release}

-- The calls that change the table, each with its instant.
pub data Call : Type 0 where
  allocates : ℕ → String → Call
  releases : ℕ → ℕ → Call

unfoldable pub step : PortManager → Call → PortManager
step pm (allocates now session_id) = (allocate now session_id pm).1
step pm (releases now port) = (release now port pm).1

unfoldable pub run : PortManager → List Call → PortManager
run pm [] = pm
run pm (c ∷ cs) = run (step pm c) cs

abbrev pub KeepsLease : ℕ → Call → Type 0
KeepsLease port (allocates now session_id) = Unit {0}
KeepsLease port (releases now q) = q ≢ port

step-holder :
    (pm : PortManager) (c : Call) (port : ℕ) (session_id : String)
    → KeepsLease port c
    → holder pm port ≡ some session_id
    → holder (step pm c) port ≡ some session_id
unfolding step
step-holder pm (allocates now s) port session_id k h = elim (allocate-Leased now s pm) [
  | leased p e free others ↦ ground (arith, nat_eq_iff p port, others port)
  | refused e same ↦ rw same h
]
step-holder pm (releases now q) port session_id k h =
    ground (arith, nat_eq_iff q port, holder-release now q port pm)

-- Until it is released, a port stays with the session that was given it, whatever is called for
-- other ports and sessions.
pub run-holder :
    (pm : PortManager) (cs : List Call) (port : ℕ) (session_id : String)
    → All (KeepsLease port) cs
    → holder pm port ≡ some session_id
    → holder (run pm cs) port ≡ some session_id
unfolding run
run-holder pm [] port session_id k h = h
run-holder pm (c ∷ cs) port session_id k h =
    run-holder (step pm c) cs port session_id k.1 (step-holder pm c port session_id k.0 h)

abbrev pub when : Call → ℕ
when (allocates now session_id) = now
when (releases now port) = now
