-- ===== src/Port/Grace.antt =====
-- The grace period of internal/port/manager.go: when a released port is handed out again.
use worldland_sdk.Base.{
  ℕ, ◌+◌, ◌≤◌, ◌<◌, String, ◌≡◌, refl, ◌↔◌, ◌≢◌, true, false, Option, none, some, arith, ◌∙◌, ℕ-eq,
  nat_eq_iff, List, [], ◌∷◌, All,
}
use worldland_sdk.Go.Errors.{Result, ok}
use worldland_sdk.Go.Map.{lookup, lookup-insert}
use worldland_sdk.Port.{
  PortManager, Allocation, fresh, allocate, release, mark_released, is_available, grace_over,
}
use worldland_sdk.Port.Scan.{Scanned, found, full, allocate-Scanned}
use worldland_sdk.Port.Lease.{holder, held_by}
use worldland_sdk.Port.History.{Call, allocates, releases, step, run, when}

grace_over_iff : (grace now t : ℕ) → (grace_over grace now (some t) ≡ true) ↔ (t + grace ≤ now)
grace_over_iff grace now t = ground arith

mark_released-available :
    (now t port : ℕ) (pm : PortManager) (o : Option Allocation)
    → held_by o ≢ none
    → is_available t port (mark_released now port o pm).1 ≡ grace_over pm.grace_period t (some now)
unfolding is_available
mark_released-available now t port pm none h = absurd (h refl)
mark_released-available now t port pm (some alloc) h = ground (
  arith,
  nat_eq_iff port port,
  lookup-insert port port (record alloc { released_at = some now }) pm.allocations,
)

-- A port that is released at `now` is available again at exactly the instants from the end of the
-- grace period on.
pub release-available_iff :
    (now t port : ℕ) (pm : PortManager)
    → holder pm port ≢ none
    → (is_available t port (release now port pm).1 ≡ true) ↔ (now + pm.grace_period ≤ t)
unfolding release holder
release-available_iff now t port pm h =
    rw (mark_released-available now t port pm (lookup port pm.allocations) h)
      (grace_over_iff pm.grace_period t now)

-- The entry says that the port was released at `t`, and reuse is `grace` away.
pub record Cooling (t grace port : ℕ) (pm : PortManager) : Type 0 where
  pub alloc : Allocation
  pub entry : lookup port pm.allocations ≡ some alloc
  pub released : alloc.released_at ≡ some t
  pub period : pm.grace_period ≡ grace

Cooling-unavailable :
    {t grace port : ℕ} {pm : PortManager} (now : ℕ)
    → Cooling t grace port pm
    → now < t + grace
    → is_available now port pm ≡ false
unfolding is_available
Cooling-unavailable now c early = rw (c.entry, c.released, c.period) (ground arith)

grace_period-mark_released :
    (now q : ℕ) (pm : PortManager) (o : Option Allocation)
    → (mark_released now q o pm).1.grace_period ≡ pm.grace_period
grace_period-mark_released now q pm none = refl
grace_period-mark_released now q pm (some alloc) = ground arith

lookup-mark_released :
    (now q port : ℕ) (pm : PortManager) (o : Option Allocation) (kept : Allocation) (t : ℕ)
    → lookup q pm.allocations ≡ o
    → lookup port pm.allocations ≡ some kept
    → kept.released_at ≡ some t
    → lookup port (mark_released now q o pm).1.allocations ≡ some kept
lookup-mark_released now q port pm none kept t e h r = h
lookup-mark_released now q port pm (some alloc) kept t e h r = ground (
  arith,
  nat_eq_iff q port,
  lookup-insert q port (record alloc { released_at = some now }) pm.allocations,
)

step-Cooling :
    (t grace port : ℕ) (pm : PortManager) (c : Call)
    → when c < t + grace
    → Cooling t grace port pm
    → Cooling t grace port (step pm c)
unfolding step
step-Cooling t grace port pm (allocates now s) early cool = go (allocate-Scanned now s pm)
  where
    go :
        {lo hi : ℕ} {r : Result ℕ × PortManager}
        → Scanned now s pm lo hi r
        → Cooling t grace port r.1
    go (found p lo up av below e) = rw e (record {
      alloc = cool.alloc;
      entry = ground (
        arith,
        nat_eq_iff p port,
        Cooling-unavailable now cool early,
        lookup-insert p port (fresh s now) pm.allocations,
      );
      released = cool.released;
      period = cool.period;
    })
    go (full none_free e) = rw e cool
step-Cooling t grace port pm (releases now q) early cool = record {
  alloc = cool.alloc;
  entry =
      unfold release in
      lookup-mark_released now q port pm _ cool.alloc t refl cool.entry cool.released;
  released = cool.released;
  period = unfold release in grace_period-mark_released now q pm _ ∙ cool.period;
}

-- A port that was released at `t` stays unavailable, and its entry stays, through every history of
-- calls before the end of its grace period.
pub run-Cooling :
    (t grace port : ℕ) (pm : PortManager) (cs : List Call)
    → All (λ c. when c < t + grace) cs
    → Cooling t grace port pm
    → Cooling t grace port (run pm cs)
unfolding run
run-Cooling t grace port pm [] early cool = cool
run-Cooling t grace port pm (c ∷ cs) early cool =
    run-Cooling t grace port (step pm c) cs early.1 (step-Cooling t grace port pm c early.0 cool)

-- A port that was released at `t` is given to no session before the end of its grace period, after
-- whatever calls before that end.
pub run-allocate-ne :
    (t grace port now : ℕ) (session_id : String) (pm : PortManager) (cs : List Call)
    → All (λ c. when c < t + grace) cs
    → Cooling t grace port pm
    → now < t + grace
    → (allocate now session_id (run pm cs)).0 ≢ ok port
run-allocate-ne t grace port now session_id pm cs early cool h e =
    go (allocate-Scanned now session_id (run pm cs)) e
  where
    cooled : is_available now port (run pm cs) ≡ false
    cooled = Cooling-unavailable now (run-Cooling t grace port pm cs early cool) h

    go :
        {lo hi : ℕ} {r : Result ℕ × PortManager}
        → Scanned now session_id (run pm cs) lo hi r
        → r.0 ≢ ok port
    go (found p lo up av below e) = ground (arith, cooled)
    go (full none_free e) = ground arith
