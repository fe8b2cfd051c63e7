-- ===== src/Examples/ThreadsTests.antt =====
-- Overlapping calls of internal/rental/executor.go, with the daemon of Examples/World.antt.
use worldland_sdk.Base.{◌≡◌, refl, true, Bool-cases, inl, inr, ◌==◌, ℕ-eq, String-eq, arith}
use worldland_sdk.Go.Context.{background}
use worldland_sdk.Go.Map.{lookup, insert}
use worldland_sdk.Port.{new_port_manager, allocate, scan}
use worldland_sdk.Rental.{StartRentalRequest, new_rental_executor}
use worldland_sdk.Rental.Wait.{wait_for_health, poll, verdict}
use worldland_sdk.Container.{
  container_info, inspect_container, create_container, ensure_image, start_container,
}
use worldland_sdk.Rental.Claims.{update}
use worldland_sdk.Rental.Threads.{
  Busy, asked, port_taken, stop_asked, advance, go_on, at_rest, is_over, Reach, here, later,
  begins_start, begins_stop, goes_on, StopsApart,
}
use worldland_sdk.Rental.Threads.Safety.{PortsApart, new-PortsApart, Reach-PortsApart}
use worldland_sdk.Rental.Wiring.{port_pool, docker_service}
use worldland_sdk.Examples.World.{docker, executor, request, machine, ports}

abbrev second_request : StartRentalRequest
second_request = record request { session_id = "s2" }

abbrev one_asked : Busy docker port_pool
one_asked = record (at_rest docker port_pool executor) {
  calls = update (at_rest docker port_pool executor).calls 0 (asked background request);
}

abbrev two_asked : Busy docker port_pool
two_asked = record one_asked { calls = update one_asked.calls 1 (asked background second_request) }

abbrev one_checked : Busy docker port_pool
one_checked = go_on docker port_pool 0 two_asked

abbrev both_checked : Busy docker port_pool
both_checked = go_on docker port_pool 1 one_checked

abbrev second_first : Busy docker port_pool
second_first = go_on docker port_pool 1 both_checked

abbrev both_leased : Busy docker port_pool
both_leased = go_on docker port_pool 0 second_first

-- Two starts that overlap: the second takes its port first.
abbrev overlap : Reach docker port_pool (at_rest docker port_pool executor) both_leased
overlap =
    later
      (later
        (later
          (later
            (later (later here (begins_start 0 background request refl))
              (begins_start 1 background second_request refl))
            (goes_on 0))
          (goes_on 1))
        (goes_on 1))
      (goes_on 0)

second_port : both_leased.calls 1 ≡ port_taken background second_request 30000
unfolding go_on advance docker_service port_pool new_rental_executor new_port_manager allocate scan
    lookup insert
second_port = refl

first_port : both_leased.calls 0 ≡ port_taken background request 30001
unfolding go_on advance docker_service port_pool new_rental_executor new_port_manager allocate scan
    lookup insert
first_port = refl

no_stops : StopsApart docker port_pool overlap
unfolding go_on advance docker_service port_pool new_rental_executor new_port_manager allocate scan
    lookup insert
no_stops =
    ((
      (
        ((((tt, tt), tt), λ ctx s h. ground arith), λ ctx s h. ground arith),
        λ ctx s h. ground arith,
      ),
      λ ctx s h. ground arith,
    ))

abbrev one_runs : Busy docker port_pool
one_runs =
    go_on docker port_pool 1
      (go_on docker port_pool 1 (go_on docker port_pool 1 (go_on docker port_pool 1 both_leased)))

abbrev asked_to_stop : Busy docker port_pool
asked_to_stop = record one_runs { calls = update one_runs.calls 1 (stop_asked background "s2") }

abbrev is_stopping : Busy docker port_pool
is_stopping = go_on docker port_pool 1 asked_to_stop

it_returned : is_over (one_runs.calls 1) ≡ true
unfolding go_on advance docker_service port_pool new_rental_executor new_port_manager allocate scan
    lookup insert create_container ensure_image start_container wait_for_health poll
    inspect_container verdict container_info
it_returned = refl

-- The second start ends, and its rental is stopped, while the first one still has to make its
-- container.
abbrev overlapping_stop : Reach docker port_pool (at_rest docker port_pool executor) is_stopping
overlapping_stop =
    later
      (later (later (later (later (later overlap (goes_on 1)) (goes_on 1)) (goes_on 1)) (goes_on 1))
        (begins_stop 1 background "s2" it_returned))
      (goes_on 1)

stops_alone : StopsApart docker port_pool overlapping_stop
unfolding go_on advance docker_service port_pool new_rental_executor new_port_manager allocate scan
    lookup insert create_container ensure_image start_container wait_for_health poll
    inspect_container verdict container_info
stops_alone = (
  (
    (
      (((no_stops, λ ctx s h. ground arith), λ ctx s h. ground arith), λ ctx s h. ground arith),
      λ ctx s h. ground arith,
    ),
    tt,
  ),
  λ ctx s h j. elim (Bool-cases (1 == j)) [
    | inl e ↦ rw e ground arith
    | inr e ↦ elim (Bool-cases (0 == j)) [
      | inl e0 ↦ rw (e, e0) ground arith
      | inr e0 ↦ rw (e, e0) ground arith
    ]
  ],
)

Reach-PortsApart_example : PortsApart docker port_pool is_stopping
Reach-PortsApart_example =
    Reach-PortsApart docker port_pool overlapping_stop stops_alone
      (new-PortsApart docker port_pool machine ports 50)
