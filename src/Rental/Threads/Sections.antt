-- ===== src/Rental/Threads/Sections.antt =====
-- What a section of a call of internal/rental/executor.go does to the ports, the rentals and the
-- claims of the other calls.
use worldland_sdk.Base.{
  ℕ, ◌≡◌, ◌≢◌, refl, sym, subst, ◌∙◌, String, Option, none, some, leb, ◌==◌, ℕ-eq, String-eq,
  nat_eq_iff, Bool-cases, Option-cases, inl, inr, arith,
}
use worldland_sdk.Go.Errors.{Result, ok, err, Result-cases}
use worldland_sdk.Go.Context.{Context}
use worldland_sdk.Go.Machine.{Machine}
use worldland_sdk.Go.Map.{Map, lookup}
use worldland_sdk.Rental.{RentalState, RentalExecutor, guarded, clean_up}
use worldland_sdk.Rental.Interfaces.{DockerService, PortPool, leased, refused}
use worldland_sdk.Rental.Start.{started_state}
use worldland_sdk.Rental.Claims.{Claim, launches, retiring, forgetting, update, Exclusive}
use worldland_sdk.Rental.Claims.Starts.{
  Exclusive-drop, Exclusive-lease, Exclusive-release, Exclusive-track,
}
use worldland_sdk.Rental.Claims.Stops.{Exclusive-retire, Exclusive-return, Exclusive-forget}
use worldland_sdk.Rental.Threads.{
  Call, advance, claim_of, leads, idle, asked, checked, port_taken, created, started, healthy,
  start_returned, stop_asked, stopping, stop_failed, cleaning, port_returned, cleaned,
}

module _ {W P : Type 0} (docker : DockerService W) (pool : PortPool P) where
  -- The claims of the calls, where the `i`-th call is the turn's.
  abbrev Kept : (ℕ → Claim) → ℕ → Call × RentalExecutor W P → Type 0
  Kept claims i (call, re) =
      Exclusive (pool.holder re.ports) re.active (update claims i (claim_of call))

  module _ (claims : ℕ → Claim) (i : ℕ) where
    -- A call that has not yet released a port forgets nothing.
    keeps_at :
        (c : Claim)
        → claims i ≡ c
        → forgetting c ≡ none
        → (s : String) → forgetting (claims i) ≢ some s
    keeps_at c at forgets_none s h = ground (arith, at, forgets_none)

    pub keep :
        (holder : ℕ → Option String) (active : Map String RentalState) (c : Claim)
        → claims i ≡ c
        → Exclusive holder active claims
        → Exclusive holder active (update claims i c)
    keep holder active c at v = subst (Exclusive holder active) same v
      where
        at_each : (j : ℕ) → claims j ≡ update claims i c j
        at_each j = ground (arith, nat_eq_iff i j, at)

        same : claims ≡ update claims i c
        same = λ k j. at_each j k

    -- A section of a start after its lease: it leads on, or the port is released.
    guarded-Kept :
        {A : Type 0} (next : A → Call) (message container_id s : String) (port : ℕ)
        (re : RentalExecutor W P) (x : Result A × Machine W)
        → claims i ≡ launches port s
        → ((a : A) → claim_of (next a) ≡ launches port s)
        → Exclusive (pool.holder re.ports) re.active claims
        → Kept claims i (
            leads docker pool next
              (guarded docker pool message container_id port (x.0, record re { machine = x.1 })))
    guarded-Kept next message container_id s port re (ok a, m) at on v =
        keep _ _ _ (at ∙ sym (on a)) v
    guarded-Kept next message container_id s port re (err e, m) at on v =
        elim (Bool-cases (container_id == "")) [
          | inl c ↦ rw c (
              Exclusive-release _ _ claims v i (keeps_at _ at refl) _ port s at
                (λ q. pool.holder-release _ port q re.ports))
          | inr c ↦ rw c (
              Exclusive-release _ _ claims v i (keeps_at _ at refl) _ port s at
                (λ q. pool.holder-release _ port q re.ports))
        ]

    -- Whatever a call does in its next section, the ports stay apart.
    pub advance-Kept :
        (call : Call) (re : RentalExecutor W P)
        → claims i ≡ claim_of call
        → ((ctx : Context) (s : String)
            → call ≡ stop_asked ctx s
            → (j : ℕ) → retiring (claims j) ≢ some s)
        → Exclusive (pool.holder re.ports) re.active claims
        → Kept claims i (advance docker pool call re)
    unfolding advance clean_up
    advance-Kept idle re at first v = keep _ _ _ at v
    advance-Kept (asked ctx req) re at first v =
        elim (Option-cases (lookup req.session_id re.active)) [
          | inl e ↦ rw e (keep _ _ _ at v)
          | inr (state, e) ↦ rw e (keep _ _ _ at v)
        ]
    advance-Kept (checked ctx req) re at first v =
        elim (pool.allocate-Leased re.machine.clock req.session_id re.ports) [
          | refused e bad same ↦ rw (bad, same) (keep _ _ _ at v)
          | leased port taken free others ↦ rw taken (
              Exclusive-lease _ _ claims v i (keeps_at _ at refl) _ port req.session_id free others)
        ]
    advance-Kept (port_taken ctx req port) re at first v =
        guarded-Kept _ "failed to create container" "" req.session_id port re _ at (λ a. refl) v
    advance-Kept (created ctx req port id) re at first v =
        guarded-Kept _ "failed to start container" id req.session_id port re _ at (λ a. refl) v
    advance-Kept (started ctx req port id) re at first v =
        guarded-Kept _ "failed health check" id req.session_id port re _ at (λ a. refl) v
    advance-Kept (healthy ctx req port id) re at first v =
        Exclusive-track _ _ claims v i (keeps_at _ at refl) port req.session_id
          (started_state req port id re.machine.clock) at refl refl
    advance-Kept (start_returned r) re at first v = keep _ _ _ at v
    advance-Kept (stop_asked ctx s) re at first v = elim (Option-cases (lookup s re.active)) [
      | inl e ↦ rw e (keep _ _ _ at v)
      | inr (state, e) ↦ rw e (
          Exclusive-retire _ _ claims v i s state _ e refl refl (keeps_at _ at refl)
            (first ctx s refl))
    ]
    advance-Kept (stopping ctx s state) re at first v =
        elim (Result-cases (docker.stop_container ctx state.container_id 10 re.machine).0) [
          | inl (done, good) ↦ rw good (keep _ _ _ at v)
          | inr (e, bad) ↦ rw bad (Exclusive-drop _ _ claims v i (keeps_at _ at refl))
        ]
    advance-Kept (stop_failed e) re at first v = keep _ _ _ at v
    advance-Kept (cleaning c) re at first v = elim (Bool-cases (leb c.due re.machine.clock)) [
      | inr early ↦ rw early (keep _ _ _ at v)
      | inl due ↦ rw due (
          Exclusive-return _ _ claims v i _ c.ssh_port c.session_id at
            (λ q. pool.holder-release _ c.ssh_port q re.ports))
    ]
    advance-Kept (port_returned s) re at first v = Exclusive-forget _ _ claims v i s at
    advance-Kept cleaned re at first v = keep _ _ _ at v
