-- ===== src/Rental/Interfaces.antt =====
-- The two interfaces that internal/rental/executor.go declares, `DockerServiceInterface` and
-- `PortManagerInterface`, with the laws that the executor relies on.
use worldland_sdk.Base.{ℕ, ◌≤◌, ◌≡◌, String, Bool, Option, none, some, ◌==◌, ℕ-eq, if◌then◌else◌}
use worldland_sdk.Go.Errors.{GoError, Act, Result, ok, err}
use worldland_sdk.Go.Context.{Context}
use worldland_sdk.Go.Machine.{Machine}
use worldland_sdk.Container.{ContainerConfig, ContainerInfo}

pub record DockerService (W : Type 0) : Type 0 where
  pub create_container : Context → ContainerConfig → Act (Machine W) String
  pub start_container : Context → String → Act (Machine W) (Unit {0})
  pub stop_container : Context → String → ℕ → Act (Machine W) (Unit {0})
  pub remove_container : Context → String → Bool → Act (Machine W) (Unit {0})
  pub inspect_container : Context → String → Act (Machine W) ContainerInfo
  -- The clock does not run backwards while a container is inspected.
  pub inspect_later :
      (ctx : Context) (container_id : String) (m : Machine W)
      → m.clock ≤ (inspect_container ctx container_id m).1.clock

-- A port is leased to the session, or nothing changes.
pub data Leased {P : Type 0} (holder : P → ℕ → Option String) (session_id : String) (ports : P)
    (r : Result ℕ × P) : Type 0 where
  leased :
      (port : ℕ)
      → r.0 ≡ ok port
      → holder ports port ≡ none
      → ((q : ℕ) → holder r.1 q ≡ (if port == q then some session_id else holder ports q))
      → Leased holder session_id ports r
  refused : (e : GoError) → r.0 ≡ err e → r.1 ≡ ports → Leased holder session_id ports r

pub record PortPool (P : Type 0) : Type 0 where
  pub allocate : ℕ → String → P → Result ℕ × P
  pub release : ℕ → ℕ → P → Result (Unit {0}) × P
  pub holder : P → ℕ → Option String
  pub allocate-Leased :
      (now : ℕ) (session_id : String) (ports : P)
      → Leased holder session_id ports (allocate now session_id ports)
  pub holder-release :
      (now port q : ℕ) (ports : P)
      → holder (release now port ports).1 q ≡ (if port == q then none else holder ports q)
