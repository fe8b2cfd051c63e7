-- ===== src/Examples/ApiTests.antt =====
-- internal/api/handler.go with the daemon of Examples/World.antt.
use worldland_sdk.Base.{◌≡◌, refl, Option, some, String-eq}
use worldland_sdk.Go.Context.{background}
use worldland_sdk.Go.Map.{lookup, insert}
use worldland_sdk.Container.{
  create_container, ensure_image, start_container, inspect_container, container_info,
}
use worldland_sdk.Port.{new_port_manager, allocate, scan}
use worldland_sdk.Rental.{new_rental_executor, start_rental, launch}
use worldland_sdk.Rental.Wait.{wait_for_health, poll, verdict}
use worldland_sdk.Api.{handle_stop_rental}
use worldland_sdk.Api.Stop.{StopShown, handle_stop_rental-StopShown}
use worldland_sdk.Rental.{RentalExecutor, stop_rental}
use worldland_sdk.Port.{PortManager}
use worldland_sdk.Container.{stop_container}
use worldland_sdk.Base.{String, ℕ}
use worldland_sdk.Rental.Wiring.{docker_service, port_pool}
use worldland_sdk.Api.{Request, StartBody, handle_start_rental, rental_request}
use worldland_sdk.Api.Status.{Answered, is_valid, handle_start_rental-Answered}
use worldland_sdk.Api.Lifecycle.{Shown, handle_start_rental-Shown}
use worldland_sdk.Examples.World.{docker, executor}

abbrev body : StartBody
body = record {
  session_id = "s1";
  gpu_device_id = "0";
  image = "";
  ssh_password = "secret";
  memory_bytes = 0;
  cpu_count = 0;
}

abbrev post : Request (Option StartBody)
post = record { method = "POST"; context = background; body = some body }

handle_start_rental-Answered_example :
    Answered
      (is_valid post)
      executor
      (handle_start_rental docker port_pool "10.0.0.1" post executor)
handle_start_rental-Answered_example =
    handle_start_rental-Answered docker port_pool "10.0.0.1" post executor

started_200 : (handle_start_rental docker port_pool "10.0.0.1" post executor).0.status ≡ 200
unfolding handle_start_rental rental_request start_rental launch docker_service port_pool
    new_rental_executor new_port_manager allocate scan lookup insert create_container ensure_image
    start_container wait_for_health poll inspect_container verdict container_info
started_200 = refl

handle_start_rental-Shown_example :
    Shown docker port_pool background
      (handle_start_rental docker port_pool "10.0.0.1" post executor).0
      (handle_start_rental docker port_pool "10.0.0.1" post executor).1
handle_start_rental-Shown_example =
    handle_start_rental-Shown docker port_pool background "10.0.0.1" post executor started_200

abbrev stop_post : Request (Option String)
stop_post = record { method = "POST"; context = background; body = some "s1" }

abbrev started : RentalExecutor ℕ PortManager
started = (handle_start_rental docker port_pool "10.0.0.1" post executor).1

stopped_200 : (handle_stop_rental docker port_pool stop_post started).0.status ≡ 200
unfolding handle_start_rental rental_request start_rental launch docker_service port_pool
    new_rental_executor new_port_manager allocate scan lookup insert create_container ensure_image
    start_container wait_for_health poll inspect_container verdict container_info handle_stop_rental
    stop_rental stop_container
stopped_200 = refl

handle_stop_rental-StopShown_example :
    StopShown docker port_pool background
      (some "s1")
      started
      (handle_stop_rental docker port_pool stop_post started).1
handle_stop_rental-StopShown_example =
    handle_stop_rental-StopShown docker port_pool background stop_post started stopped_200
