-- ===== src/Examples/NodeTests.antt =====
-- internal/services/node_daemon.go with the daemon of Examples/World.antt.
use worldland_sdk.Base.{ℕ, ◌≡◌, refl, true, some, [], ◌∷◌, String-eq}
use worldland_sdk.Go.Map.{lookup, insert}
use worldland_sdk.Go.Json.{string, number}
use worldland_sdk.Container.{
  create_container, ensure_image, start_container, inspect_container, container_info,
}
use worldland_sdk.Port.{PortManager, new_port_manager, allocate, scan}
use worldland_sdk.Rental.{new_rental_executor, start_rental, launch}
use worldland_sdk.Rental.Wait.{wait_for_health, poll, verdict}
use worldland_sdk.Rental.Wiring.{docker_service, port_pool}
use worldland_sdk.Mining.{new_mining_daemon, pause_for_rental}
use worldland_sdk.Mining.Rented.{mark_all}
use worldland_sdk.Mining.Config.{default_mining_config}
use worldland_sdk.Node.{
  new_node_daemon, with_rental_executor, with_mining_daemon, Command, NodeDaemon, rental_request,
  handle_start_rental,
}
use worldland_sdk.Node.Acks.{Reports, handle_start_rental-Reports}
use worldland_sdk.Node.Leak.{is_withheld, handle_all, withheld-handle_all}
use worldland_sdk.Examples.World.{docker, machine, executor, float, dial, provider}

abbrev start_command : Command ℕ
start_command = record {
  id = "c1";
  kind = "start_rental";
  payload =
      ("session_id", string "s1") ∷ ("gpu_device_id", string "0") ∷ ("memory_mb", number 512) ∷ [];
}

abbrev stop_command : Command ℕ
stop_command = record {
  id = "c2";
  kind = "stop_rental";
  payload = ("session_id", string "s1") ∷ [];
}

abbrev pub node : NodeDaemon ℕ PortManager
node =
    with_mining_daemon (new_mining_daemon machine default_mining_config)
      (with_rental_executor executor "10.0.0.1" (new_node_daemon machine provider "n1"))

abbrev rented_node : NodeDaemon ℕ PortManager
rented_node = record node {
  mining_daemon =
      some (record (new_mining_daemon machine default_mining_config) {
        paused_gpus = ("0", true) ∷ [];
      });
}

said_ok : (handle_start_rental docker port_pool float dial start_command node).0.status ≡ "ok"
unfolding handle_start_rental new_node_daemon with_rental_executor with_mining_daemon rental_request
    new_mining_daemon default_mining_config pause_for_rental mark_all start_rental launch
    docker_service port_pool new_rental_executor new_port_manager allocate scan lookup insert
    create_container ensure_image start_container wait_for_health poll inspect_container verdict
    container_info
said_ok = refl

handle_start_rental-Reports_example :
    Reports docker port_pool float dial start_command
      (handle_start_rental docker port_pool float dial start_command node).0
      (handle_start_rental docker port_pool float dial start_command node).1
handle_start_rental-Reports_example =
    handle_start_rental-Reports docker port_pool float dial start_command node said_ok

withheld-handle_all_example :
    is_withheld
      (handle_all docker port_pool float dial
        (stop_command ∷ start_command ∷ stop_command ∷ [])
        rented_node)
      "0"
    ≡ true
withheld-handle_all_example =
    withheld-handle_all docker port_pool float dial
      (stop_command ∷ start_command ∷ stop_command ∷ []) rented_node "0" held
  where
    held : is_withheld rented_node "0" ≡ true
    held = unfold lookup in refl
