-- ===== src/Examples/CmdTests.antt =====
-- The flags of cmd/node/main.go on a machine with one GPU.
use worldland_sdk.Base.{ℕ, ◌≤◌, ◌≡◌, ◌↔◌, refl, [], ◌∷◌, true, false, String-eq}
use worldland_sdk.Go.Errors.{ok, err, text}
use worldland_sdk.Go.Map.{lookup}
use worldland_sdk.Go.Strconv.{itoa, parse_big, read_digits}
use worldland_sdk.Container.{container_config, is_gpu_uuid}
use worldland_sdk.Mining.{MiningDaemon, new_mining_daemon, mining_container, available_gpus}
use worldland_sdk.Mining.Rented.{unrented}
use worldland_sdk.Gpu.{GpuSpec}
use worldland_sdk.Cmd.{check_price, min_price_per_sec, hub_http_url, detect, mining_config}
use worldland_sdk.Cmd.Price.{check_price_iff}
use worldland_sdk.Cmd.Devices.{mining_container-env}
use worldland_sdk.Examples.World.{machine}

abbrev spec : GpuSpec
spec = record {
  uuid = "GPU-751b4c38";
  name = "NVIDIA A100";
  memory_total = 40960;
  driver_ver = "550";
}

abbrev idle : MiningDaemon ℕ
idle = new_mining_daemon machine (mining_config "" "mio" "/data" (spec ∷ []))

no_number : check_price "1e3" ≡ err (text "Invalid price-per-sec value: 1e3")
unfolding check_price parse_big read_digits
no_number = refl

derived_url : hub_http_url "" "hub:8443" ≡ "http://hub:8080"
unfolding hub_http_url
derived_url = refl

detected_gpu :
    detect "NVIDIA RTX 4090" 24 (ok tt) (ok (spec ∷ []))
    ≡ record { is_cpu_node = false; gpu_type = "NVIDIA A100"; memory_gb = 40 }
unfolding detect
detected_gpu = refl

cpu_node :
    detect "NVIDIA RTX 4090" 24 (err (text "no NVML")) (ok [])
    ≡ record { is_cpu_node = true; gpu_type = "CPU Node"; memory_gb = 1 }
unfolding detect
cpu_node = refl

check_price_iff_example :
    (check_price (itoa 3000000000000) ≡ ok tt) ↔ (min_price_per_sec ≤ 3000000000000)
check_price_iff_example = check_price_iff 3000000000000

is_uuid : is_gpu_uuid "GPU-751b4c38" ≡ true
unfolding is_gpu_uuid
is_uuid = refl

is_free : available_gpus idle ≡ "GPU-751b4c38" ∷ []
unfolding available_gpus new_mining_daemon mining_config unrented lookup
is_free = refl

same_config : idle.config ≡ mining_config "" "mio" "/data" (spec ∷ [])
unfolding new_mining_daemon
same_config = refl

mining_container-env_example :
    (container_config (mining_container idle.config "GPU-751b4c38")).env
    ≡ "NVIDIA_VISIBLE_DEVICES=all" ∷ "NVIDIA_DRIVER_CAPABILITIES=all" ∷ []
mining_container-env_example =
    mining_container-env idle "" "mio" "/data" (spec ∷ []) "GPU-751b4c38" [] same_config
      (is_uuid, tt) is_free
