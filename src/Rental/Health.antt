-- ===== src/Rental/Health.antt =====
-- `waitForHealth` of internal/rental/executor.go: the loop ends by one of its returns, in time.
use worldland_sdk.Base.{
  ℕ, zero, suc, ◌+◌, ◌*◌, ◌/◌, ◌≤◌, ◌<◌, ◌≡◌, refl, ap, String, true, false, ltb, Bool-cases, inl,
  inr, String-eq, arith,
}
use worldland_sdk.Go.Errors.{GoError, sentinel, text, wrap, container_not_healthy, Result, ok, err}
use worldland_sdk.Go.Context.{Context, is_done}
use worldland_sdk.Go.Machine.{Machine, sleep}
use worldland_sdk.Container.{ContainerInfo, ◌<>◌}
use worldland_sdk.Rental.Wait.{
  Verdict, healthy, unhealthy, stopped, waiting, verdict, judged, inspected, poll, wait_for_health,
}
use worldland_sdk.Rental.Interfaces.{DockerService}

module _ {W : Type 0} (docker : DockerService W) (ctx : Context) (container_id : String)
    (deadline interval : ℕ) where
  -- The deadline has not passed and the context is open: the loop inspects the container.
  abbrev pub Open : Machine W → Type 0
  Open m = (m.clock ≤ deadline) × (is_done ctx m.clock ≡ false)

  -- The run of the loop from `m`: one constructor for each way out of the body of the `for`.
  pub data Polled : Machine W → Result (Unit {0}) × Machine W → Type 0 where
    timed_out :
        {m : Machine W} → deadline < m.clock → Polled m (err (sentinel container_not_healthy), m)
    cancelled :
        {m : Machine W}
        → m.clock ≤ deadline
        → is_done ctx m.clock ≡ true
        → Polled m (err (sentinel ctx.reason), m)
    inspect_failed :
        {m : Machine W} (e : GoError) (n : Machine W)
        → Open m
        → docker.inspect_container ctx container_id m ≡ (err e, n)
        → Polled m (err (wrap "failed to inspect container" e), n)
    is_healthy :
        {m : Machine W} (info : ContainerInfo) (n : Machine W)
        → Open m
        → docker.inspect_container ctx container_id m ≡ (ok info, n)
        → verdict info ≡ healthy
        → Polled m (ok tt, n)
    is_unhealthy :
        {m : Machine W} (info : ContainerInfo) (n : Machine W)
        → Open m
        → docker.inspect_container ctx container_id m ≡ (ok info, n)
        → verdict info ≡ unhealthy
        → Polled m (err (sentinel container_not_healthy), n)
    has_stopped :
        {m : Machine W} (info : ContainerInfo) (n : Machine W)
        → Open m
        → docker.inspect_container ctx container_id m ≡ (ok info, n)
        → verdict info ≡ stopped
        → Polled m (err (text ("container stopped during startup: state=" <> info.state)), n)
    polled_again :
        {m : Machine W} {r : Result (Unit {0}) × Machine W} (info : ContainerInfo) (n : Machine W)
        → Open m
        → docker.inspect_container ctx container_id m ≡ (ok info, n)
        → verdict info ≡ waiting
        → Polled (sleep interval n) r
        → Polled m r

  judged-Polled :
      (m n : Machine W) (info : ContainerInfo) (v : Verdict)
      (again : Machine W → Result (Unit {0}) × Machine W)
      → Open m
      → docker.inspect_container ctx container_id m ≡ (ok info, n)
      → verdict info ≡ v
      → (verdict info ≡ waiting → Polled (sleep interval n) (again n))
      → Polled m (judged docker again info v n)
  judged-Polled m n info healthy again o e v h = is_healthy info n o e v
  judged-Polled m n info unhealthy again o e v h = is_unhealthy info n o e v
  judged-Polled m n info stopped again o e v h = has_stopped info n o e v
  judged-Polled m n info waiting again o e v h = polled_again info n o e v (h v)

  inspected-Polled :
      (m : Machine W) (x : Result ContainerInfo × Machine W)
      (again : Machine W → Result (Unit {0}) × Machine W)
      → Open m
      → docker.inspect_container ctx container_id m ≡ x
      → ((n : Machine W) → x.1 ≡ n → Polled (sleep interval n) (again n))
      → Polled m (inspected docker again x)
  inspected-Polled m (err e, n) again o eq h = inspect_failed e n o eq
  inspected-Polled m (ok info, n) again o eq h =
      judged-Polled m n info (verdict info) again o eq refl (λ _. h n refl)

  -- One round, from what the rounds after it do.
  poll_round :
      (fuel : ℕ) (m : Machine W)
      → (m.clock ≤ deadline
          → (n : Machine W) → (docker.inspect_container ctx container_id m).1 ≡ n
          → Polled
              (sleep interval n)
              (poll docker fuel deadline interval ctx container_id (sleep interval n)))
      → Polled m (poll docker (suc fuel) deadline interval ctx container_id m)
  unfolding poll
  poll_round fuel m rest = elim (Bool-cases (ltb deadline m.clock)) [
    | inl late ↦ rw late (timed_out (ground arith))
    | inr early ↦ elim (Bool-cases (is_done ctx m.clock)) [
      | inl done ↦ rw (early, done) (cancelled (ground arith) done)
      | inr live ↦
          rw (early, live) (inspected-Polled m _ _ (ground arith, live) refl (rest (ground arith)))
    ]
  ]

  poll-Polled :
      (fuel : ℕ) (m : Machine W)
      → 0 < interval
      → deadline < m.clock + fuel * interval
      → Polled m (poll docker (suc fuel) deadline interval ctx container_id m)
  poll-Polled zero m pos h = poll_round zero m (λ open_yet n e. absurd (omega arith))
  poll-Polled (suc fuel) m pos h = poll_round (suc fuel) m λ open_yet n e.
      poll-Polled fuel (sleep interval n) pos
        (omega (arith, docker.inspect_later ctx container_id m, ap (λ (k : Machine W). k.clock) e))

  -- A success was seen at an inspection that began before the deadline.
  pub Polled-ok :
      {m : Machine W} {r : Result (Unit {0}) × Machine W}
      → Polled m r
      → r.0 ≡ ok tt
      → (info : ContainerInfo) × (n : Machine W) × (n.clock ≤ deadline)
        × (docker.inspect_container ctx container_id n ≡ (ok info, r.1))
        × (verdict info ≡ healthy)
  Polled-ok (timed_out late) e = cc
  Polled-ok (cancelled early done) e = cc
  Polled-ok (inspect_failed e' n o eq) e = cc
  Polled-ok {m} (is_healthy info n o eq v) e = (info, m, o.0, eq, v)
  Polled-ok (is_unhealthy info n o eq v) e = cc
  Polled-ok (has_stopped info n o eq v) e = cc
  Polled-ok (polled_again info n o eq v p) e = Polled-ok p e

rounds_suffice :
    (timeout interval : ℕ) → 0 < interval → timeout < (timeout / interval + 1) * interval
rounds_suffice timeout interval h = grind arith

module _ {W : Type 0} (docker : DockerService W) where
  -- Where the interval is positive, `waitForHealth` ends by one of its own returns and never for
  -- want of fuel; each of its inspections begins no later than the deadline and while the context
  -- is open, and what the last one shows decides the result.
  pub wait_for_health-Polled :
      (timeout interval : ℕ) (ctx : Context) (container_id : String) (m : Machine W)
      → 0 < interval
      → Polled docker ctx container_id
          (m.clock + timeout)
          interval
          m
          (wait_for_health docker timeout interval ctx container_id m)
  unfolding wait_for_health
  wait_for_health-Polled timeout interval ctx container_id m pos =
      let e : timeout / interval + 2 ≡ suc (timeout / interval + 1) = omega arith in
      rw e (
        poll-Polled docker ctx container_id (m.clock + timeout) interval (timeout / interval + 1) m
          pos (omega (arith, rounds_suffice timeout interval pos)))
