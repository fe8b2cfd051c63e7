-- ===== src/Rental/Claims/Stops.antt =====
-- What a stop of internal/rental/executor.go, and its cleanup, does to the claims while other calls run.
use worldland_sdk.Base.{
  ℕ, ◌≡◌, ◌≢◌, String, Option, none, some, if◌then◌else◌, ◌==◌, ℕ-eq, String-eq, text_iff,
  nat_eq_iff, inl, inr, arith,
}
use worldland_sdk.Go.Map.{Map, lookup, insert, delete, lookup-insert, lookup-delete}
use worldland_sdk.Rental.{RentalState}
use worldland_sdk.Rental.Claims.{
  Claim, no_claim, retires, port_of, retiring, update, Exclusive, forgets, launching_or_retiring,
  forgetting, forgetting-retiring, IsLive, IsLive-before,
}

module _ (holder : ℕ → Option String) (active : Map String RentalState) (claims : ℕ → Claim)
    (v : Exclusive holder active claims) (i : ℕ) where
  -- A stop marks the rental, which keeps its session and its port.
  pub Exclusive-retire :
      (session_id : String) (state marked : RentalState)
      → lookup session_id active ≡ some state
      → marked.session_id ≡ state.session_id
      → marked.ssh_port ≡ state.ssh_port
      → ((s : String) → forgetting (claims i) ≢ some s)
      → ((j : ℕ) → retiring (claims j) ≢ some session_id)
      → Exclusive holder
          (insert session_id marked active)
          (update claims i (retires state.ssh_port session_id))
  Exclusive-retire session_id state marked tracked own on keeps first = record {
    own_session = λ s other t. ground (
      arith,
      text_iff session_id s,
      lookup-insert session_id s marked active,
      v.own_session s other,
      v.own_session session_id state tracked,
    );
    holds_port = λ s other t live. ground (
      arith,
      text_iff session_id s,
      lookup-insert session_id s marked active,
      v.holds_port s other,
      was _ s live,
      is_live,
      v.holds_port session_id state tracked,
    );
    held = λ j q h. ground (arith, v.held j q, v.holds_port session_id state tracked, is_live);
    untracked = λ j q s other h t live g. ground (
      arith,
      text_iff session_id s,
      lookup-insert session_id s marked active,
      v.untracked j q s other,
      v.untracked j q session_id state,
      was _ s live,
      is_live,
    );
    apart =
        λ j k q ne h g. ground (arith, v.apart j k q ne, v.untracked j q session_id state, is_live);
    once = λ j k s ne h g.
        ground (arith, nat_eq_iff i j, nat_eq_iff i k, v.once j k s ne, first j, first k);
  }
    where
      was : (c : Claim) (s : String) → IsLive (update claims i c) s → IsLive claims s
      was c s live = IsLive-before claims i _ s (keeps s) live

      is_live : IsLive claims session_id
      is_live j h = first j (forgetting-retiring (claims j) session_id h)

  retired_alone :
      (j q port : ℕ) (session_id : String)
      → i ≢ j
      → claims i ≡ retires port session_id
      → port_of (claims j) ≡ some q
      → q ≢ port
  retired_alone j q port session_id ne at h e = elim (launching_or_retiring (claims j) q h) [
    | inl l ↦ v.apart j i q (λ same. ground (arith, ne)) l (ground (arith, at, e))
    | inr r ↦
        v.once i j session_id ne (ground (arith, at))
          (ground (arith, r, v.held j q h, v.held i port, at, e))
  ]

  module _ (holder' : ℕ → Option String) (port : ℕ) (session_id : String)
      (at : claims i ≡ retires port session_id)
      (freed : (q : ℕ) → holder' q ≡ (if port == q then none else holder q)) where
    was : (c : Claim) (s : String) → IsLive (update claims i c) s → IsLive claims s
    was c s live = IsLive-before claims i _ s (λ h. ground (arith, at)) live

    -- A session that is live once the cleanup's is forgotten is another one.
    other_live : (s : String) → IsLive (update claims i (forgets session_id)) s → s ≢ session_id
    other_live s live e = live i (ground (arith, nat_eq_iff i i))

    -- A cleanup releases the port.
    pub Exclusive-return : Exclusive holder' active (update claims i (forgets session_id))
    Exclusive-return = record {
      own_session = v.own_session;
      holds_port = λ s state t live. ground (
        arith,
        freed state.ssh_port,
        nat_eq_iff port state.ssh_port,
        v.holds_port s state t (was _ s live),
        other_live s live,
        v.held i port,
      );
      held = λ j q h. ground (
        arith,
        freed q,
        nat_eq_iff i j,
        nat_eq_iff port q,
        v.held j q,
        retired_alone j q port session_id,
      );
      untracked = λ j q s state h t live. ground (arith, v.untracked j q s state, was _ s live);
      apart = λ j k q ne h g. ground (arith, v.apart j k q ne);
      once = λ j k s ne h g. ground (arith, v.once j k s ne);
    }

  -- A cleanup forgets the rental.
  pub Exclusive-forget :
      (session_id : String)
      → claims i ≡ forgets session_id
      → Exclusive holder (delete session_id active) (update claims i no_claim)
  Exclusive-forget session_id at = record {
    own_session = λ s state t.
        ground
          (arith, text_iff session_id s, lookup-delete session_id s active, v.own_session s state);
    holds_port = λ s state t live. ground (
      arith,
      text_iff session_id s,
      lookup-delete session_id s active,
      v.holds_port s state,
      was s live,
    );
    held = λ j q h. ground (arith, v.held j q);
    untracked = λ j q s state h t live. ground (
      arith,
      text_iff session_id s,
      lookup-delete session_id s active,
      v.untracked j q s state,
      was s live,
    );
    apart = λ j k q ne h g. ground (arith, v.apart j k q ne);
    once = λ j k s ne h g. ground (arith, v.once j k s ne);
  }
    where
      was : (s : String) → IsLive (update claims i no_claim) s → session_id ≢ s → IsLive claims s
      was s live ne = IsLive-before claims i _ s (λ h. ground (arith, at, ne)) live
