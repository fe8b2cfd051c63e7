-- ===== src/Rental/Claims/Starts.antt =====
-- What a start of internal/rental/executor.go does to the claims while other calls run.
use worldland_sdk.Base.{
  ℕ, ◌≡◌, ◌≢◌, String, Option, none, some, if◌then◌else◌, ◌==◌, ℕ-eq, String-eq, text_iff,
  nat_eq_iff, arith,
}
use worldland_sdk.Go.Map.{Map, insert, lookup-insert}
use worldland_sdk.Rental.{RentalState}
use worldland_sdk.Rental.Claims.{
  Claim, no_claim, launches, update, Exclusive, launching-port, claimed, forgetting, IsLive,
  IsLive-before,
}

module _ (holder : ℕ → Option String) (active : Map String RentalState) (claims : ℕ → Claim)
    (v : Exclusive holder active claims) (i : ℕ)
    (keeps : (s : String) → forgetting (claims i) ≢ some s) where
  was : (c : Claim) (s : String) → IsLive (update claims i c) s → IsLive claims s
  was c s live = IsLive-before claims i _ s (keeps s) live

  -- A call gives its claim up, and the port stays with its session.
  pub Exclusive-drop : Exclusive holder active (update claims i no_claim)
  Exclusive-drop = record {
    own_session = v.own_session;
    holds_port = λ s state t live. v.holds_port s state t (was _ s live);
    held = λ j port h. ground (arith, v.held j port);
    untracked = λ j port s state h t live. ground (arith, v.untracked j port s state, was _ s live);
    apart = λ j k port ne h g. ground (arith, v.apart j k port ne);
    once = λ j k s ne h g. ground (arith, v.once j k s ne);
  }

  -- A start leases a port that nobody held.
  pub Exclusive-lease :
      (holder' : ℕ → Option String) (port : ℕ) (session_id : String)
      → holder port ≡ none
      → ((q : ℕ) → holder' q ≡ (if port == q then some session_id else holder q))
      → Exclusive holder' active (update claims i (launches port session_id))
  Exclusive-lease holder' port session_id free leased = record {
    own_session = v.own_session;
    holds_port = λ s state t live. ground (
      arith,
      leased state.ssh_port,
      nat_eq_iff port state.ssh_port,
      v.holds_port s state,
      was _ s live,
    );
    held = λ j q h. ground (arith, leased q, nat_eq_iff port q, v.held j q, claimed (claims j) q);
    untracked = λ j q s state h t live g.
        ground (arith, v.untracked j q s state, v.holds_port s state t, was _ s live);
    apart = λ j k q ne h g. ground (
      arith,
      nat_eq_iff i j,
      nat_eq_iff i k,
      v.apart j k q ne,
      v.held j q,
      v.held k q,
      launching-port (claims j) q,
      claimed (claims j) q,
      claimed (claims k) q,
    );
    once = λ j k s ne h g. ground (arith, v.once j k s ne);
  }

  -- A start that fails releases its port.
  pub Exclusive-release :
      (holder' : ℕ → Option String) (port : ℕ) (session_id : String)
      → claims i ≡ launches port session_id
      → ((q : ℕ) → holder' q ≡ (if port == q then none else holder q))
      → Exclusive holder' active (update claims i no_claim)
  Exclusive-release holder' port session_id at freed = record {
    own_session = v.own_session;
    holds_port = λ s state t live. ground (
      arith,
      freed state.ssh_port,
      nat_eq_iff port state.ssh_port,
      v.holds_port s state,
      was _ s live,
      v.untracked i port s state,
    );
    held = λ j q h.
        ground (arith, freed q, nat_eq_iff i j, nat_eq_iff port q, v.held j q, v.apart i j port);
    untracked = λ j q s state h t live. ground (arith, v.untracked j q s state, was _ s live);
    apart = λ j k q ne h g. ground (arith, v.apart j k q ne);
    once = λ j k s ne h g. ground (arith, v.once j k s ne);
  }

  -- A start tracks its rental.
  pub Exclusive-track :
      (port : ℕ) (session_id : String) (new : RentalState)
      → claims i ≡ launches port session_id
      → new.session_id ≡ session_id
      → new.ssh_port ≡ port
      → Exclusive holder (insert session_id new active) (update claims i no_claim)
  Exclusive-track port session_id new at own on = record {
    own_session = λ s state t. ground (
      arith,
      text_iff session_id s,
      lookup-insert session_id s new active,
      v.own_session s state,
    );
    holds_port = λ s state t live. ground (
      arith,
      text_iff session_id s,
      lookup-insert session_id s new active,
      v.holds_port s state,
      was _ s live,
      v.held i port,
    );
    held = λ j q h. ground (arith, v.held j q);
    untracked = λ j q s state h t live g. ground (
      arith,
      nat_eq_iff i j,
      text_iff session_id s,
      lookup-insert session_id s new active,
      v.untracked j q s state,
      was _ s live,
      v.apart i j port,
      launching-port (claims j) q,
    );
    apart = λ j k q ne h g. ground (arith, v.apart j k q ne);
    once = λ j k s ne h g. ground (arith, v.once j k s ne);
  }
