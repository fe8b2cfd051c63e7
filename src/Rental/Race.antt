-- ===== src/Rental/Race.antt =====
-- Two calls of `StartRental` of internal/rental/executor.go for one session, both of which looked for
-- a duplicate before either was done: the lock is given up between the check and the insertion.
use worldland_sdk.Base.{
  ℕ, ◌≡◌, ◌≢◌, refl, ap, sym, ◌∙◌, String, some, none, if◌then◌else◌, ◌==◌, ℕ-eq, String-eq,
  nat_eq_iff, ==_refl, arith,
}
use worldland_sdk.Go.Errors.{Result, ok}
use worldland_sdk.Go.Context.{Context}
use worldland_sdk.Go.Map.{lookup, lookup-insert_self}
use worldland_sdk.Rental.{
  RentalState, RentalExecutor, StartRentalRequest, ConnectionInfo, connection_info, launch,
}
use worldland_sdk.Rental.Interfaces.{DockerService, PortPool}
use worldland_sdk.Rental.Start.{Started, failed, running, launch-Started, started_state}

module _ {W P : Type 0} (docker : DockerService W) (pool : PortPool P) where
  -- What a successful start leaves behind.
  pub record Success (req : StartRentalRequest) (re after : RentalExecutor W P)
      (info : ConnectionInfo) : Type 0 where
    free : pool.holder re.ports info.port ≡ none
    pub leases :
        (q : ℕ)
        → pool.holder after.ports q
          ≡ (if info.port == q then some req.session_id else pool.holder re.ports q)
    pub state : RentalState
    pub tracked : lookup req.session_id after.active ≡ some state
    pub on_port : state.ssh_port ≡ info.port
    pub in_container : state.container_id ≡ info.container_id
    no_cleanup : after.pending ≡ re.pending

  pub Started-Success :
      {ctx : Context} (req : StartRentalRequest) (re : RentalExecutor W P)
      {r : Result ConnectionInfo × RentalExecutor W P} (info : ConnectionInfo)
      → Started docker pool ctx req re r
      → r.0 ≡ ok info
      → Success req re r.1 info
  Started-Success req re info (failed e bad a p h dis) good = cc
  Started-Success req re {r} info (running port id is_ok free others new same healthy) good =
      let info_is : info ≡ connection_info req port id = cc in
      rw info_is (record {
        free = free;
        leases = others;
        state = started_state req port id r.1.machine.clock;
        tracked = rw new (lookup-insert_self _ _ re.active);
        on_port = refl;
        in_container = refl;
        no_cleanup = same;
      })

  -- The one rental of a session after the second of two starts.
  pub record Overtaken (session_id : String) (first second : ConnectionInfo)
      (re : RentalExecutor W P) : Type 0 where
    pub apart : first.port ≢ second.port
    pub first_held : pool.holder re.ports first.port ≡ some session_id
    pub second_held : pool.holder re.ports second.port ≡ some session_id
    pub state : RentalState
    pub tracked : lookup session_id re.active ≡ some state
    pub on_port : state.ssh_port ≡ second.port
    pub in_container : state.container_id ≡ second.container_id

  overtaken :
      (req req' : StartRentalRequest) (re middle after : RentalExecutor W P)
      (first second : ConnectionInfo)
      → req'.session_id ≡ req.session_id
      → Success req re middle first
      → Success req' middle after second
      → Overtaken req.session_id first second after
  overtaken req req' re middle after first second same one two =
      let held : pool.holder middle.ports first.port ≡ some req.session_id =
        one.leases first.port ∙ rw (==_refl first.port) in
      record {
        apart = λ e. ground (arith, held, two.free);
        first_held =
            ground
              (arith, held, two.free, two.leases first.port, nat_eq_iff second.port first.port);
        second_held = two.leases second.port ∙ rw (==_refl second.port, same);
        state = two.state;
        tracked = ap (λ s. lookup s after.active) (sym same) ∙ two.tracked;
        on_port = two.on_port;
        in_container = two.in_container;
      }

  -- If two starts of one session that both found it untracked succeed one after the other, the
  -- session holds two ports, the rental that is tracked is the second one, and no cleanup was
  -- scheduled that would give the first one back.
  pub launch-Overtaken :
      (ctx ctx' : Context) (req req' : StartRentalRequest) (re : RentalExecutor W P)
      (first second : ConnectionInfo)
      → req'.session_id ≡ req.session_id
      → (launch docker pool ctx req re).0 ≡ ok first
      → (launch docker pool ctx' req' (launch docker pool ctx req re).1).0 ≡ ok second
      → Overtaken req.session_id first second
          (launch docker pool ctx' req' (launch docker pool ctx req re).1).1
        × ((launch docker pool ctx' req' (launch docker pool ctx req re).1).1.pending ≡ re.pending)
  launch-Overtaken ctx ctx' req req' re first second same ok1 ok2 =
      let middle = (launch docker pool ctx req re).1 in
      let one = Started-Success req re first (launch-Started docker pool ctx req re) ok1 in
      let two =
        Started-Success req' middle second (launch-Started docker pool ctx' req' middle) ok2 in
      (overtaken req req' re middle _ first second same one two, two.no_cleanup ∙ one.no_cleanup)
