-- ===== src/Rental/Claims.antt =====
-- Who has a claim to a port of internal/rental/executor.go while calls overlap: the tracked rentals,
-- the starts that have a port, and the stops whose cleanup is still to come.
pub mod Starts
pub mod Stops
use worldland_sdk.Base.{
  ℕ, ◌≡◌, ◌≢◌, ◌⊎◌, refl, String, Option, none, some, if◌then◌else◌, ◌==◌, ℕ-eq, String-eq,
  text_iff, nat_eq_iff, Bool-cases, inl, inr, arith,
}
use worldland_sdk.Go.Map.{Map, lookup, insert, delete, lookup-insert, lookup-delete}
use worldland_sdk.Rental.{RentalState}

-- The claim of a call: a start has leased the port for its session, a stop will release the port that
-- its session had, or it has released it and will forget the rental.
pub data Claim : Type 0 where
  no_claim : Claim
  launches retires : ℕ → String → Claim
  forgets : String → Claim

abbrev pub port_of : Claim → Option ℕ
port_of no_claim = none
port_of (launches port s) = some port
port_of (retires port s) = some port
port_of (forgets s) = none

abbrev pub session_of : Claim → Option String
session_of no_claim = none
session_of (launches port s) = some s
session_of (retires port s) = some s
session_of (forgets s) = some s

abbrev pub launching : Claim → Option ℕ
launching (launches port s) = some port
launching _ = none

abbrev pub retiring : Claim → Option String
retiring (retires port s) = some s
retiring (forgets s) = some s
retiring _ = none

abbrev pub forgetting : Claim → Option String
forgetting (forgets s) = some s
forgetting _ = none

abbrev pub update : {A : Type 0} → (ℕ → A) → ℕ → A → ℕ → A
update f i a j = if i == j then a else f j

-- No call has released the port of the session.
abbrev pub IsLive : (ℕ → Claim) → String → Type 0
IsLive claims s = (i : ℕ) → forgetting (claims i) ≢ some s

pub record Exclusive (holder : ℕ → Option String) (active : Map String RentalState)
    (claims : ℕ → Claim) : Type 0 where
  pub own_session :
      (s : String) (state : RentalState) → lookup s active ≡ some state → state.session_id ≡ s
  pub holds_port :
      (s : String) (state : RentalState)
      → lookup s active ≡ some state
      → IsLive claims s
      → holder state.ssh_port ≡ some s
  -- The session of a claim holds its port.
  pub held : (i port : ℕ) → port_of (claims i) ≡ some port → holder port ≡ session_of (claims i)
  -- Nobody else has a claim to the port of a start.
  pub untracked :
      (i port : ℕ) (s : String) (state : RentalState)
      → launching (claims i) ≡ some port
      → lookup s active ≡ some state
      → IsLive claims s
      → state.ssh_port ≢ port
  pub apart :
      (i j port : ℕ) → i ≢ j → launching (claims i) ≡ some port → port_of (claims j) ≢ some port
  -- No session is stopped by two calls.
  pub once :
      (i j : ℕ) (s : String) → i ≢ j → retiring (claims i) ≡ some s → retiring (claims j) ≢ some s

pub launching-port : (c : Claim) (port : ℕ) → launching c ≡ some port → port_of c ≡ some port
launching-port c port h = ground arith

pub retiring-session : (c : Claim) (s : String) → retiring c ≡ some s → session_of c ≡ some s
retiring-session c s h = ground arith

pub claimed : (c : Claim) (port : ℕ) → port_of c ≡ some port → session_of c ≢ none
claimed c port h g = ground arith

pub launching_or_retiring :
    (c : Claim) (port : ℕ)
    → port_of c ≡ some port
    → (launching c ≡ some port) ⊎ (retiring c ≡ session_of c)
launching_or_retiring no_claim port h = inr refl
launching_or_retiring (launches p s) port h = inl h
launching_or_retiring (retires p s) port h = inr refl
launching_or_retiring (forgets s) port h = inr refl

pub forgetting-retiring : (c : Claim) (s : String) → forgetting c ≡ some s → retiring c ≡ some s
forgetting-retiring c s h = ground arith

-- A session that no call forgets once a call has changed, nor did that call before.
pub IsLive-before :
    (claims : ℕ → Claim) (i : ℕ) (c : Claim) (s : String)
    → forgetting (claims i) ≢ some s
    → IsLive (update claims i c) s
    → IsLive claims s
IsLive-before claims i c s ne live j h = elim (Bool-cases (i == j)) [
  | inl e ↦ ne (ground (arith, nat_eq_iff i j))
  | inr e ↦ live j (rw e h)
]
