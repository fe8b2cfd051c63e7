-- ===== src/Examples/MiningTests.antt =====
-- internal/mining/daemon.go with the daemon of Examples/World.antt.
use worldland_sdk.Base.{
  ℕ, ◌≡◌, ◌≢◌, refl, String, Bool, true, ◌||◌, [], ◌∷◌, String-eq, text_iff, arith,
}
use worldland_sdk.Go.Context.{background}
use worldland_sdk.Go.Map.{Map, lookup, insert}
use worldland_sdk.Container.{create_container, ensure_image, start_container}
use worldland_sdk.Mining.{
  MiningDaemon, running, new_mining_daemon, available_gpus, start, pause_for_rental,
}
use worldland_sdk.Mining.Rented.{unrented, is_rented, mark_all}
use worldland_sdk.Mining.Config.{MiningConfig, default_mining_config}
use worldland_sdk.Mining.Start.{Started, start-Started}
use worldland_sdk.Mining.History.{starts, pauses, resumes, restarts, ticks, run, Inv, run-new-Inv}
use worldland_sdk.Mining.Stranded.{IsStranded, pause-run-IsStranded}
use worldland_sdk.Mining.Gpus.{contains, is_rented-mark_all}
use worldland_sdk.Mining.Monitor.{Monitored, monitor-Monitored}
use worldland_sdk.Mining.{monitor, monitor_loop, ticked, closed}
use worldland_sdk.Mining.History.{ticks_of, monitor_loop-run}
use worldland_sdk.Rental.Wiring.{docker_service}
use worldland_sdk.Examples.World.{docker, machine}

abbrev config : MiningConfig
config = record default_mining_config { gpu_device_ids = "0" ∷ "1" ∷ [] }

abbrev idle : MiningDaemon ℕ
idle = new_mining_daemon machine config

abbrev mining_daemon : MiningDaemon ℕ
mining_daemon = (start docker background idle).1

is_up : mining_daemon.state ≡ running
unfolding start new_mining_daemon default_mining_config available_gpus unrented docker_service
    create_container ensure_image start_container lookup
is_up = refl

has_container : mining_daemon.container_id ≡ "c0ffee"
unfolding start new_mining_daemon default_mining_config available_gpus unrented docker_service
    create_container ensure_image start_container lookup
has_container = refl

has_name : mining_daemon.container_id ≢ ""
has_name e = ground (arith, has_container, text_iff "c0ffee" "")

left_gpu :
    available_gpus
      (record mining_daemon { paused_gpus = mark_all ("0" ∷ []) mining_daemon.paused_gpus })
    ≡ "1" ∷ []
unfolding start new_mining_daemon default_mining_config available_gpus unrented docker_service
    create_container ensure_image start_container lookup insert mark_all
left_gpu = refl

one_left :
    available_gpus
      (record mining_daemon { paused_gpus = mark_all ("0" ∷ []) mining_daemon.paused_gpus })
    ≢ []
one_left e = ground (arith, left_gpu)

start-Started_example : Started docker background idle (start docker background idle)
start-Started_example = start-Started docker background idle

run-new-Inv_example : Inv (
    run docker
      (new_mining_daemon machine config)
      (starts background ∷ pauses background ("0" ∷ []) ∷ restarts ∷ ticks background ∷ []))
run-new-Inv_example =
    run-new-Inv docker machine config
      (starts background ∷ pauses background ("0" ∷ []) ∷ restarts ∷ ticks background ∷ [])

pause-run-IsStranded_example : IsStranded (
    run docker
      (pause_for_rental docker background ("0" ∷ []) mining_daemon).1
      (restarts ∷ ticks background ∷ resumes background ("0" ∷ []) ∷ starts background ∷ []))
pause-run-IsStranded_example =
    pause-run-IsStranded docker background ("0" ∷ []) mining_daemon
      (restarts ∷ ticks background ∷ resumes background ("0" ∷ []) ∷ starts background ∷ []) is_up
      has_name one_left (tt, (tt, (tt, (tt, tt))))

abbrev rented : Map String Bool
rented = ("1", true) ∷ []

is_rented-mark_all_example :
    is_rented (mark_all ("0" ∷ []) rented) "0" ≡ (contains ("0" ∷ []) "0" || is_rented rented "0")
is_rented-mark_all_example = is_rented-mark_all ("0" ∷ []) rented "0"

monitor-Monitored_example :
    Monitored docker background mining_daemon (monitor docker background mining_daemon)
monitor-Monitored_example = monitor-Monitored docker background mining_daemon

monitor_loop-run_example :
    monitor_loop docker background (ticked ∷ closed ∷ ticked ∷ []) mining_daemon
    ≡ run docker mining_daemon (ticks_of background (ticked ∷ closed ∷ ticked ∷ []))
monitor_loop-run_example =
    monitor_loop-run docker background (ticked ∷ closed ∷ ticked ∷ []) mining_daemon
