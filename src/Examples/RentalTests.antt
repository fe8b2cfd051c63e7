-- ===== src/Examples/RentalTests.antt =====
-- internal/rental/executor.go with the daemon of Examples/World.antt.
use worldland_sdk.Base.{
  ℕ, ◌+◌, ◌≡◌, ◌⊎◌, ◌↔◌, refl, true, some, none, is_some, List, [], ◌∷◌, ℕ-eq, String-eq, arith,
}
use worldland_sdk.Go.Errors.{ok, err, sentinel, session_already_active}
use worldland_sdk.Go.Context.{background}
use worldland_sdk.Go.Map.{lookup, insert, delete}
use worldland_sdk.Container.{
  ContainerInfo, container_info, inspect_container, create_container, ensure_image, start_container,
  stop_container, remove_container,
}
use worldland_sdk.Port.{PortManager, new_port_manager, allocate, scan, release}
use worldland_sdk.Rental.{
  RentalState, connection_info, RentalExecutor, Cleanup, StartRentalRequest, new_rental_executor,
  start_rental, launch, stop_rental, clean_up, get_rental_status, list_active_rentals,
}
use worldland_sdk.Rental.Wait.{wait_for_health, poll, verdict}
use worldland_sdk.Rental.Health.{Polled, wait_for_health-Polled}
use worldland_sdk.Rental.Start.{Started, start_rental-Started}
use worldland_sdk.Rental.Stop.{Stopped, stop_rental-Stopped}
use worldland_sdk.Rental.Stale.{Scheduled, Fresh, Forgotten, clean_up-Stale}
use worldland_sdk.Rental.Booking.{Plays, bookings, run-Plays}
use worldland_sdk.Rental.History.{
  Event, starts, stops, wakes, passes, run, step, StopsOnce, IsConsistent, new-IsConsistent,
  run-IsConsistent,
}
use mathlib.Core.List.{Memᴰ}
use worldland_sdk.Rental.Keys.{Once}
use worldland_sdk.Rental.Listing.{run-listed}
use worldland_sdk.Rental.Race.{Overtaken, launch-Overtaken}
use worldland_sdk.Rental.Wiring.{port_pool, docker_service}
use worldland_sdk.Examples.World.{docker, executor, request, machine, ports, shown}

abbrev second_request : StartRentalRequest
second_request = record request { session_id = "s2" }

abbrev running_one : RentalExecutor ℕ PortManager
running_one = (start_rental docker port_pool background request executor).1

abbrev first_state : RentalState
first_state = record {
  session_id = "s1";
  container_id = "c0ffee";
  ssh_port = 30000;
  started_at = 1004;
  stopped_at = none;
}

tracked : get_rental_status "s1" running_one ≡ ok first_state
unfolding get_rental_status start_rental launch docker_service port_pool new_rental_executor
    new_port_manager allocate scan lookup insert create_container ensure_image start_container
    wait_for_health poll inspect_container verdict container_info
tracked = refl

start_rental-Started_example :
    (is_some (lookup "s1" executor.active) ≡ true)
      × (start_rental docker port_pool background request executor
          ≡ (err (sentinel session_already_active), executor))
    ⊎ (lookup "s1" executor.active ≡ none)
      × Started docker port_pool background request executor
          (start_rental docker port_pool background request executor)
start_rental-Started_example = start_rental-Started docker port_pool background request executor

stop_rental-Stopped_example :
    Stopped docker port_pool background "s1" running_one
      (stop_rental docker port_pool background "s1" running_one)
stop_rental-Stopped_example = stop_rental-Stopped docker port_pool background "s1" running_one

wait_for_health-Polled_example :
    Polled docker background "c0ffee"
      (machine.clock + 60)
      2
      machine
      (wait_for_health docker 60 2 background "c0ffee" machine)
wait_for_health-Polled_example =
    wait_for_health-Polled docker 60 2 background "c0ffee" machine (omega arith)

abbrev info : ContainerInfo
info = container_info (shown "c0ffee")

-- Two rentals, the first of which is stopped and cleaned up.
abbrev events : List (Event ℕ)
events =
    starts background request
    ∷ starts background second_request
    ∷ stops background "s1"
    ∷ passes 100 5
    ∷ wakes 0
    ∷ []

stops_once : StopsOnce docker port_pool executor events
unfolding step start_rental launch docker_service port_pool new_rental_executor new_port_manager
    allocate scan lookup insert create_container ensure_image start_container wait_for_health poll
    inspect_container verdict container_info
stops_once = (tt, (tt, (tt, (tt, (tt, tt)))))

run-IsConsistent_example : IsConsistent docker port_pool (run docker port_pool executor events)
run-IsConsistent_example =
    run-IsConsistent docker port_pool executor events stops_once
      (new-IsConsistent docker port_pool machine ports 50)

run-Plays_example :
    Plays (bookings executor) events (bookings (run docker port_pool executor events))
run-Plays_example =
    run-Plays docker port_pool executor events stops_once
      (new-IsConsistent docker port_pool machine ports 50)

run-listed_example :
    ((state : RentalState)
      → Memᴰ state (list_active_rentals (run docker port_pool executor events))
        ↔ (get_rental_status state.session_id (run docker port_pool executor events) ≡ ok state))
    × Once (list_active_rentals (run docker port_pool executor events))
run-listed_example = run-listed docker port_pool machine ports 50 events

abbrev two_starts : List (Event ℕ)
two_starts = starts background request ∷ starts background second_request ∷ []

abbrev second_state : RentalState
second_state = record {
  session_id = "s2";
  container_id = "c0ffee";
  ssh_port = 30001;
  started_at = 1008;
  stopped_at = none;
}

both_tracked : lookup "s2" (run docker port_pool executor two_starts).active ≡ some second_state
unfolding run step start_rental launch docker_service port_pool new_rental_executor new_port_manager
    allocate scan lookup insert create_container ensure_image start_container wait_for_health poll
    inspect_container verdict container_info
both_tracked = refl

-- "s1" is stopped twice, and started once more when its first cleanup has run.
abbrev stopped_once : RentalExecutor ℕ PortManager
stopped_once = (stop_rental docker port_pool background "s1" running_one).1

abbrev stopped_twice : RentalExecutor ℕ PortManager
stopped_twice = (stop_rental docker port_pool background "s1" stopped_once).1

abbrev first_cleanup : Cleanup
first_cleanup = record { due = 1055; session_id = "s1"; container_id = "c0ffee"; ssh_port = 30000 }

abbrev cleaned_once : RentalExecutor ℕ PortManager
cleaned_once = clean_up docker port_pool first_cleanup stopped_twice

abbrev started_again : RentalExecutor ℕ PortManager
started_again = (start_rental docker port_pool background request cleaned_once).1

second_stop : stop_rental docker port_pool background "s1" stopped_once ≡ (ok tt, stopped_twice)
unfolding stop_rental start_rental launch docker_service port_pool new_rental_executor
    new_port_manager allocate scan lookup insert create_container ensure_image start_container
    wait_for_health poll inspect_container verdict container_info stop_container
second_stop = refl

new_start :
    start_rental docker port_pool background request cleaned_once
    ≡ (ok (connection_info request 30001 "c0ffee"), started_again)
unfolding stop_rental start_rental launch docker_service port_pool new_rental_executor
    new_port_manager allocate scan lookup insert create_container ensure_image start_container
    wait_for_health poll inspect_container verdict container_info stop_container clean_up delete
    release remove_container
new_start = refl

clean_up-Stale_example :
    (scheduled : Scheduled docker port_pool "s1" stopped_once stopped_twice) × Fresh docker
      port_pool "s1"
      (connection_info request 30001 "c0ffee")
      started_again
    × Forgotten docker port_pool "s1" scheduled.old
        (connection_info request 30001 "c0ffee")
        scheduled.cleanup
        started_again
clean_up-Stale_example =
    clean_up-Stale docker port_pool background background "s1" request stopped_once stopped_twice
      cleaned_once started_again (connection_info request 30001 "c0ffee") second_stop refl new_start

-- Two starts of "s1" that both found it untracked.
abbrev after_first : RentalExecutor ℕ PortManager
after_first = (launch docker port_pool background request executor).1

first_ok :
    (launch docker port_pool background request executor).0
    ≡ ok (connection_info request 30000 "c0ffee")
unfolding launch docker_service port_pool new_rental_executor new_port_manager allocate scan lookup
    insert create_container ensure_image start_container wait_for_health poll inspect_container
    verdict container_info
first_ok = refl

second_ok :
    (launch docker port_pool background request after_first).0
    ≡ ok (connection_info request 30001 "c0ffee")
unfolding launch docker_service port_pool new_rental_executor new_port_manager allocate scan lookup
    insert create_container ensure_image start_container wait_for_health poll inspect_container
    verdict container_info
second_ok = refl

launch-Overtaken_example :
    Overtaken docker port_pool "s1"
      (connection_info request 30000 "c0ffee")
      (connection_info request 30001 "c0ffee")
      (launch docker port_pool background request after_first).1
    × ((launch docker port_pool background request after_first).1.pending ≡ executor.pending)
launch-Overtaken_example =
    launch-Overtaken docker port_pool background background request request executor
      (connection_info request 30000 "c0ffee") (connection_info request 30001 "c0ffee") refl
      first_ok second_ok
