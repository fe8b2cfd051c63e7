-- ===== src/Rental/Threads/Safety.antt =====
-- What overlapping calls of internal/rental/executor.go cannot break.
use worldland_sdk.Base.{
  ℕ, ◌≡◌, ◌≢◌, refl, sym, subst, ◌∙◌, String, some, true, ◌==◌, ℕ-eq, String-eq, [], Bool-cases,
  inl, inr, arith,
}
use worldland_sdk.Go.Machine.{Machine}
use worldland_sdk.Go.Map.{lookup}
use worldland_sdk.Rental.{RentalState, new_rental_executor}
use worldland_sdk.Rental.Interfaces.{DockerService, PortPool}
use worldland_sdk.Rental.Claims.{no_claim, launching, launching-port, IsLive, update, Exclusive}
use worldland_sdk.Rental.Threads.{
  Call, Busy, go_on, claim_of, asked, stop_asked, StopsFirst, StopsApart, at_rest, Step,
  begins_start, begins_stop, goes_on, passes, Reach, here, later, is_over,
}
use worldland_sdk.Rental.Threads.Sections.{keep, advance-Kept}

module _ {W P : Type 0} (docker : DockerService W) (pool : PortPool P) where
  -- The ports of an executor with its calls.
  abbrev pub PortsApart : Busy docker pool → Type 0
  PortsApart b =
      Exclusive (pool.holder b.executor.ports) b.executor.active (λ j. claim_of (b.calls j))

  -- The claims once a call has changed.
  claims-update :
      (calls : ℕ → Call) (i : ℕ) (call : Call)
      → update (λ j. claim_of (calls j)) i (claim_of call) ≡ (λ j. claim_of (update calls i call j))
  claims-update calls i call = λ k j. at_each j k
    where
      at_each :
          (j : ℕ)
          → update (λ j. claim_of (calls j)) i (claim_of call) j ≡ claim_of (update calls i call j)
      at_each j = elim (Bool-cases (i == j)) [ inl e ↦ rw e refl | inr e ↦ rw e refl ]

  over-unclaimed : (call : Call) → is_over call ≡ true → claim_of call ≡ no_claim
  over-unclaimed call over = ground arith

  begin-PortsApart :
      (b : Busy docker pool) (i : ℕ) (call : Call)
      → is_over (b.calls i) ≡ true
      → claim_of call ≡ no_claim
      → PortsApart b
      → PortsApart (record b { calls = update b.calls i call })
  begin-PortsApart b i call over new v =
      subst (Exclusive _ _) (claims-update b.calls i call)
        (keep docker pool _ i _ _ _ (over-unclaimed (b.calls i) over ∙ sym new) v)

  pub Step-PortsApart :
      {b b' : Busy docker pool} (s : Step docker pool b b')
      → StopsFirst docker pool s
      → PortsApart b
      → PortsApart b'
  unfolding go_on
  Step-PortsApart {b} (begins_start i ctx req over) f v =
      begin-PortsApart b i (asked ctx req) over refl v
  Step-PortsApart {b} (begins_stop i ctx s over) f v =
      begin-PortsApart b i (stop_asked ctx s) over refl v
  Step-PortsApart {b} (goes_on i) f v =
      subst (Exclusive _ _) (claims-update b.calls i _)
        (advance-Kept docker pool _ i (b.calls i) b.executor refl f v)
  Step-PortsApart (passes d world) f v = v

  -- The following, if it holds at first, holds however the sections of overlapping calls, and the
  -- passing of time, follow one another, as long as no session is stopped while another call is
  -- stopping it or has yet to clean it up: a tracked rental stands under its own session, which holds
  -- its port unless a cleanup has just returned it; a port that a start has taken, or that a stop has
  -- yet to return, is held by the session of that call; the port that a start has taken is neither
  -- that of a tracked rental whose port is not returned nor that of another call; and no two calls
  -- stop one session.
  pub Reach-PortsApart :
      {b b' : Busy docker pool} (r : Reach docker pool b b')
      → StopsApart docker pool r
      → PortsApart b
      → PortsApart b'
  Reach-PortsApart here f v = v
  Reach-PortsApart (later r s) f v = Step-PortsApart s f.1 (Reach-PortsApart r f.0 v)

  pub new-PortsApart :
      (m : Machine W) (ports : P) (grace : ℕ)
      → PortsApart (at_rest docker pool (new_rental_executor m ports grace))
  unfolding new_rental_executor
  new-PortsApart m ports grace = record {
    own_session = λ s state h. absurd (none_tracked s h);
    holds_port = λ s state h live. absurd (none_tracked s h);
    held = λ i port h. ground arith;
    untracked = λ i port s state h t live. ground arith;
    apart = λ i j port ne h. ground arith;
    once = λ i j s ne h. ground arith;
  }
    where
      none_tracked : (s : String) {t : RentalState} → lookup s [] ≡ some t → ⊥
      none_tracked s h = unfold lookup in cc

  -- From a new executor, by overlapping calls and the passing of time, as long as no session is
  -- stopped while another call is stopping it or has yet to clean it up: two sessions that are
  -- tracked on one port, which no cleanup has returned, are the same, and two starts under way have
  -- different ports.
  pub Reach-ports_distinct :
      (m : Machine W) (ports : P) (grace : ℕ) (b : Busy docker pool)
      (r : Reach docker pool (at_rest docker pool (new_rental_executor m ports grace)) b)
      → StopsApart docker pool r
      → ((s s' : String) (state state' : RentalState)
          → lookup s b.executor.active ≡ some state
          → lookup s' b.executor.active ≡ some state'
          → IsLive (λ j. claim_of (b.calls j)) s
          → IsLive (λ j. claim_of (b.calls j)) s'
          → state.ssh_port ≡ state'.ssh_port
          → s ≡ s')
        × ((i j port : ℕ)
            → i ≢ j
            → launching (claim_of (b.calls i)) ≡ some port
            → launching (claim_of (b.calls j)) ≢ some port)
  Reach-ports_distinct m ports grace b r f =
      let v = Reach-PortsApart r f (new-PortsApart m ports grace) in
      (
        (λ s s' state state' t t' live live' same.
            ground (arith, v.holds_port s state t live, v.holds_port s' state' t' live')),
        λ i j port ne h g. v.apart i j port ne h (launching-port _ port g),
      )
