-- ===== src/Rental/Wiring.antt =====
-- What the executor's two interfaces are filled with in cmd/node/main.go: the methods of
-- `DockerService` and of `PortManager`.
use worldland_sdk.Base.{ℕ, ◌*◌, ◌≤◌, String, arith}
use worldland_sdk.Go.Errors.{Result}
use worldland_sdk.Go.Context.{Context, minute}
use worldland_sdk.Go.Machine.{Machine}
use worldland_sdk.Container.{
  create_container, start_container, stop_container, remove_container, inspect_container,
}
use worldland_sdk.Container.Client.{DockerClient, Backoff}
use worldland_sdk.Port.{PortManager, allocate, release, new_port_manager}
use worldland_sdk.Port.Lease.{holder, allocate-Leased, holder-release}
use worldland_sdk.Port.Lease
use worldland_sdk.Rental.{RentalExecutor, new_rental_executor}
use worldland_sdk.Rental.Interfaces.{DockerService, PortPool, Leased, leased, refused}

pub manager-Leased :
    (now : ℕ) (session_id : String) (ports : PortManager)
    → Leased holder session_id ports (allocate now session_id ports)
manager-Leased now session_id ports = go (allocate-Leased now session_id ports)
  where
    go :
        {r : Result ℕ × PortManager}
        → Lease.Leased session_id ports r
        → Leased holder session_id ports r
    go (Lease.leased port e free others) = leased port e free others
    go (Lease.refused e same) = refused _ e same

unfoldable pub port_pool : PortPool PortManager
port_pool = record {
  allocate = allocate;
  release = release;
  holder = holder;
  allocate-Leased = manager-Leased;
  holder-release = holder-release;
}

pub inspect-later :
    {W : Type 0} (cli : DockerClient W) (ctx : Context) (container_id : String) (m : Machine W)
    → m.clock ≤ (inspect_container cli ctx container_id m).1.clock
unfolding inspect_container
inspect-later cli ctx container_id m = ground arith

unfoldable pub docker_service : {W : Type 0} → DockerClient W → Backoff W → DockerService W
docker_service cli backoff = record {
  create_container = create_container cli;
  start_container = start_container cli backoff;
  stop_container = stop_container cli;
  remove_container = remove_container cli;
  inspect_container = inspect_container cli;
  inspect_later = inspect-later cli;
}

-- The executor of the node: ports 30000 to 32000, and 30 minutes of grace for ports and containers.
unfoldable pub node_executor : {W : Type 0} → Machine W → RentalExecutor W PortManager
node_executor machine =
    new_rental_executor machine (new_port_manager 30000 32000 (30 * minute)) (30 * minute)
