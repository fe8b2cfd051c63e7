-- ===== src/Rental/Invariant.antt =====
-- The invariant of the table of rentals of internal/rental/executor.go, with the port leases and the
-- scheduled cleanups, and what each change to the table does to it.
use worldland_sdk.Base.{
  ℕ, ◌≡◌, ◌∙◌, String, Option, none, some, List, [], ◌∷◌, ◌++◌, All, if◌then◌else◌, Bool-cases, inl,
  inr, ◌≢◌, ◌==◌, ℕ-eq, String-eq, text_iff, nat_eq_iff, arith,
}
use worldland_sdk.Go.Map.{Map, lookup, insert, delete, lookup-insert, lookup-delete}
use worldland_sdk.Rental.{RentalState, Cleanup}
use worldland_sdk.Rental.Pending.{
  OtherSession, Distinct, All-map, All-map_both, All-append, Distinct-append, Picked, Picked-All,
  Picked-Distinct,
}

-- The rental that a cleanup was scheduled for is still the tracked one.
pub record IsCurrent (active : Map String RentalState) (c : Cleanup) : Type 0 where
  pub state : RentalState
  pub tracked : lookup c.session_id active ≡ some state
  pub same_container : state.container_id ≡ c.container_id
  pub same_port : state.ssh_port ≡ c.ssh_port

pub record Inv (holder : ℕ → Option String) (active : Map String RentalState)
    (pending : List Cleanup) : Type 0 where
  -- A tracked rental stands under its own session, which holds its port.
  pub own_session :
      (session_id : String) (state : RentalState)
      → lookup session_id active ≡ some state
      → state.session_id ≡ session_id
  pub holds_port :
      (session_id : String) (state : RentalState)
      → lookup session_id active ≡ some state
      → holder state.ssh_port ≡ some session_id
  pub current : All (IsCurrent active) pending
  pub distinct : Distinct pending

IsCurrent-delete :
    (active : Map String RentalState) (session_id : String) (c : Cleanup)
    → c.session_id ≢ session_id
    → IsCurrent active c
    → IsCurrent (delete session_id active) c
IsCurrent-delete active session_id c ne i = record {
  state = i.state;
  tracked = ground (
    arith,
    i.tracked,
    text_iff session_id c.session_id,
    lookup-delete session_id c.session_id active,
  );
  same_container = i.same_container;
  same_port = i.same_port;
}

IsCurrent-insert :
    (active : Map String RentalState) (session_id : String) (state : RentalState) (c : Cleanup)
    → c.session_id ≢ session_id
    → IsCurrent active c
    → IsCurrent (insert session_id state active) c
IsCurrent-insert active session_id state c ne i = record {
  state = i.state;
  tracked = ground (
    arith,
    i.tracked,
    text_iff session_id c.session_id,
    lookup-insert session_id c.session_id state active,
  );
  same_container = i.same_container;
  same_port = i.same_port;
}

module _ (holder : ℕ → Option String) (active : Map String RentalState)
    (pending : List Cleanup) where
  pub Inv-holder :
      (holder' : ℕ → Option String)
      → ((q : ℕ) → holder' q ≡ holder q)
      → Inv holder active pending
      → Inv holder' active pending
  Inv-holder holder' same v = record {
    own_session = v.own_session;
    holds_port = λ s state h. same state.ssh_port ∙ v.holds_port s state h;
    current = v.current;
    distinct = v.distinct;
  }

  -- A new rental of an untracked session, on a port that nobody held.
  pub Inv-start :
      (holder' : ℕ → Option String) (state : RentalState)
      → lookup state.session_id active ≡ none
      → holder state.ssh_port ≡ none
      → ((q : ℕ) → holder' q ≡ (if state.ssh_port == q then some state.session_id else holder q))
      → Inv holder active pending
      → Inv holder' (insert state.session_id state active) pending
  Inv-start holder' new absent free others v = record {
    own_session = λ s state h. ground (
      arith,
      text_iff new.session_id s,
      lookup-insert new.session_id s new active,
      v.own_session s state,
    );
    holds_port = λ s state h. ground (
      arith,
      text_iff new.session_id s,
      nat_eq_iff new.ssh_port state.ssh_port,
      lookup-insert new.session_id s new active,
      others state.ssh_port,
      v.holds_port s state,
    );
    current =
        All-map pending
          (λ c i. IsCurrent-insert active new.session_id new c (λ e. ground (arith, i.tracked)) i)
          v.current;
    distinct = v.distinct;
  }

  -- A rental that is marked as stopped keeps its session, container and port.
  pub Inv-mark :
      (session_id : String) (state state' : RentalState)
      → lookup session_id active ≡ some state
      → state'.session_id ≡ state.session_id
      → state'.container_id ≡ state.container_id
      → state'.ssh_port ≡ state.ssh_port
      → Inv holder active pending
      → Inv holder (insert session_id state' active) pending
  Inv-mark session_id state state' found es ec ep v = record {
    own_session = λ s t h. ground (
      arith,
      text_iff session_id s,
      lookup-insert session_id s state' active,
      v.own_session s t,
      v.own_session session_id state found,
    );
    holds_port = λ s t h. ground (
      arith,
      text_iff session_id s,
      lookup-insert session_id s state' active,
      v.holds_port s t,
      v.holds_port session_id state found,
    );
    current = All-map pending kept v.current;
    distinct = v.distinct;
  }
    where
      kept : (c : Cleanup) → IsCurrent active c → IsCurrent (insert session_id state' active) c
      kept c i = elim (Bool-cases (session_id == c.session_id)) [
        | inr e ↦
            IsCurrent-insert active session_id state' c
              (λ q. ground (arith, text_iff session_id c.session_id)) i
        | inl e ↦ record {
          state = state';
          tracked = ground (arith, lookup-insert session_id c.session_id state' active);
          same_container =
              ground (arith, i.tracked, i.same_container, text_iff session_id c.session_id);
          same_port = ground (arith, i.tracked, i.same_port, text_iff session_id c.session_id);
        }
      ]

-- A cleanup of a tracked rental whose session has none yet.
pub Inv-schedule :
    (holder : ℕ → Option String) (active : Map String RentalState) (pending : List Cleanup)
    (c : Cleanup)
    → IsCurrent active c
    → All (OtherSession c.session_id) pending
    → Inv holder active pending
    → Inv holder active (pending ++ c ∷ [])
Inv-schedule holder active pending c i o v = record {
  own_session = v.own_session;
  holds_port = v.holds_port;
  current = All-append _ pending c v.current i;
  distinct = Distinct-append pending c v.distinct o;
}

-- A cleanup runs: its rental is forgotten and its port has no holder.
pub Inv-clean :
    (holder holder' : ℕ → Option String) (active : Map String RentalState)
    (pending rest : List Cleanup) (c : Cleanup)
    → Picked c pending rest
    → ((q : ℕ) → holder' q ≡ (if c.ssh_port == q then none else holder q))
    → Inv holder active pending
    → Inv holder' (delete c.session_id active) rest
Inv-clean holder holder' active pending rest c p freed v = record {
  own_session = λ s t h.
      ground
        (arith, text_iff c.session_id s, lookup-delete c.session_id s active, v.own_session s t);
  holds_port = λ s t h. ground (
    arith,
    text_iff c.session_id s,
    nat_eq_iff c.ssh_port t.ssh_port,
    lookup-delete c.session_id s active,
    freed t.ssh_port,
    v.holds_port s t,
    v.holds_port c.session_id own.state,
    own.tracked,
    own.same_port,
  );
  current =
      All-map_both rest (λ d o i. IsCurrent-delete active c.session_id d o i)
        (Picked-Distinct p v.distinct).0 kept.1;
  distinct = (Picked-Distinct p v.distinct).1;
}
  where
    kept : IsCurrent active c × All (IsCurrent active) rest
    kept = Picked-All (IsCurrent active) p v.current

    own : IsCurrent active c
    own = kept.0
