-- ===== src/Container/Lifecycle.antt =====
-- `StartContainer` and `StopContainer` of internal/container/docker.go: what a success means.
use worldland_sdk.Base.{ℕ, ◌≡◌, refl, ap, String, inl, inr, ◌⊎◌, ◌↔◌, arith}
use worldland_sdk.Go.Errors.{GoError, wrap, Result, ok, err, Act, wrapping}
use worldland_sdk.Go.Context.{Context}
use worldland_sdk.Go.Machine.{Machine, perform, sleep}
use worldland_sdk.Container.{start_container, start_once, backoff_policy, stop_container}
use worldland_sdk.Container.Client.{
  DockerClient, Backoff, Attempts, succeeded, stopped, again, exited,
}

-- The last call of the operation decides.
Attempts-last :
    {W : Type 0} {op : Act (Machine W) (Unit {0})} {m : Machine W}
    {r : Result (Unit {0}) × Machine W}
    → Attempts op m r
    → ((n : Machine W) × (op n ≡ r) × (r.0 ≡ ok tt))
      ⊎ ((n : Machine W) × (n' : Machine W) × (e e' : GoError) × (d : ℕ) × (op n ≡ (err e, n'))
          × (r ≡ (err e', sleep d n')))
Attempts-last {m} (succeeded e) = inl (m, e, refl)
Attempts-last {m} (stopped {m' = n'} {e = x} d e' e) = inr (m, n', x, e', d, e, refl)
Attempts-last (again d e a) = Attempts-last a

-- A start succeeds with the answer of the daemon to its last call, which started the container, or
-- it fails and the daemon answered its last call with an error.
pub start_container-last :
    {W : Type 0} (cli : DockerClient W) (backoff : Backoff W) (ctx : Context) (id : String)
    (m : Machine W)
    → ((n : Machine W) × (start_container cli backoff ctx id m
          ≡ perform (cli.container_start ctx id) n)
        × ((perform (cli.container_start ctx id) n).0 ≡ ok tt))
      ⊎ ((n : Machine W) × (e e' : GoError) × (d : ℕ) × ((perform (cli.container_start ctx id) n).0
            ≡ err e)
          × (start_container cli backoff ctx id m ≡ (
            err (wrap "failed to start container after retries" e'),
            sleep d (perform (cli.container_start ctx id) n).1,
          )))
unfolding start_container
start_container-last {W} cli backoff ctx id m =
    elim (Attempts-last (backoff.retry-Attempts ctx backoff_policy (start_once cli ctx id) m)) [
      | inl (n, e, succeeded_last) ↦
          let (same, fine) = kept (perform (cli.container_start ctx id) n) _ e succeeded_last in
          inl (n, same, fine)
      | inr (n, n', e, e', d, failed_last, r_is) ↦
          let (x, said, at) = lost (perform (cli.container_start ctx id) n) e n' failed_last in
          inr (n, x, e', d, said, rw (r_is, ← at))
    ]
  where
    kept :
        (x r : Result (Unit {0}) × Machine W)
        → wrapping "failed to start container" x ≡ r
        → r.0 ≡ ok tt
        → (wrapping "failed to start container after retries" r ≡ x) × (x.0 ≡ ok tt)
    kept (ok a, n) r e h = (rw (← e), refl)
    kept (err y, n) r e h = ground (arith, ap (λ p. p.0) e)

    lost :
        (x : Result (Unit {0}) × Machine W) (e : GoError) (n' : Machine W)
        → wrapping "failed to start container" x ≡ (err e, n')
        → (y : GoError) × (x.0 ≡ err y) × (x.1 ≡ n')
    lost (ok a, n) e n' h = cc
    lost (err y, n) e n' h = (y, refl, ap (λ p. p.1) h)

-- A stop succeeds exactly if the daemon stopped the container and then saw it exit before an error
-- and before the context was done.
pub stop_container_iff :
    {W : Type 0} (cli : DockerClient W) (ctx : Context) (id : String) (timeout : ℕ) (m : Machine W)
    → ((stop_container cli ctx id timeout m).0 ≡ ok tt) ↔ (
        ((perform (cli.container_stop ctx id timeout) m).0 ≡ ok tt)
        × ((perform (cli.container_wait ctx id) (perform (cli.container_stop ctx id timeout) m).1).0
            ≡ ok exited))
unfolding stop_container
stop_container_iff cli ctx id timeout m = ground arith
