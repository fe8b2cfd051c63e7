-- ===== src/Cmd.antt =====
-- cmd/node/main.go: the checks and the defaults of its flags, and the configuration that it gives to
-- the mining daemon.
pub mod Os
pub mod Flags
pub mod Enroll
pub mod Startup
pub mod Shutdown
pub mod Routes
pub mod Price
pub mod Devices
use worldland_sdk.Base.{
  ℕ, ◌/◌, String, Bool, true, false, not, Option, none, some, List, [], ◌∷◌, map, ltb,
  if◌then◌else◌, ◌==◌, ℕ-eq, String-eq,
}
use worldland_sdk.Go.Errors.{GoError, text, Result, ok, err}
use worldland_sdk.Go.Strconv.{ℤ, pos, negsuc, codes, parse_big}
use worldland_sdk.Container.{◌<>◌}
use worldland_sdk.Mining.Config.{MiningConfig}
use worldland_sdk.Auth.{before}
use worldland_sdk.Gpu.{GpuSpec}

-- What the node registers as.
pub record Registration : Type 0 where
  pub is_cpu_node : Bool
  pub gpu_type : String
  pub memory_gb : ℕ

abbrev pub min_price_per_sec : ℕ
min_price_per_sec = 2_777_777_777_778

abbrev too_low : String → GoError
too_low price = text ("price-per-sec must be at least 2777777777778 (0.01 WLC/hr), got: " <> price)

abbrev priced : String → Option ℤ → Result (Unit {0})
priced price none = err (text ("Invalid price-per-sec value: " <> price))
priced price (some (negsuc n)) = err (too_low price)
priced price (some (pos n)) = if ltb n min_price_per_sec then err (too_low price) else ok tt

-- The check of the flag price-per-sec; an error ends the program.
unfoldable pub check_price : String → Result (Unit {0})
check_price price = priced price (parse_big (codes price))

-- The hub's HTTP address, made of its mTLS address where it is not given.
unfoldable pub hub_http_url : String → String → String
hub_http_url hub_http hub_addr =
    if hub_http == "" then "http://" <> before ":" hub_addr <> ":8080" else hub_http

abbrev pub default_gpu : String
default_gpu = "NVIDIA RTX 4090"

abbrev detected : String → ℕ → Result (List GpuSpec) → Registration
detected gpu_type memory_gb (ok (spec ∷ specs)) = record {
  is_cpu_node = false;
  gpu_type = if gpu_type == default_gpu then spec.name else gpu_type;
  memory_gb = if memory_gb == 24 then spec.memory_total / 1024 else memory_gb;
}
detected gpu_type memory_gb _ = record {
  is_cpu_node = false;
  gpu_type = gpu_type;
  memory_gb = memory_gb;
}

-- The flags gpu-type and memory-gb after the early detection: `init` is what NVML's Init says,
-- `specs` what GetSpecs says.
unfoldable pub detect : String → ℕ → Result (Unit {0}) → Result (List GpuSpec) → Registration
detect gpu_type memory_gb (ok done) specs = detected gpu_type memory_gb specs
detect gpu_type memory_gb (err e) specs = record {
  is_cpu_node = true;
  gpu_type = if gpu_type == default_gpu then "CPU Node" else gpu_type;
  memory_gb = if gpu_type == default_gpu then 1 else memory_gb;
}

-- The configuration for mining: the UUIDs of the GPUs that NVML lists.
unfoldable pub mining_config : String → String → String → List GpuSpec → MiningConfig
mining_config wallet_address image data_dir specs = record {
  enabled = true;
  wallet_address = wallet_address;
  image = image;
  gpu_device_ids = map (λ spec. spec.uuid) specs;
  data_dir = data_dir;
  chain_id = 10396;
  p2p_port = 30303;
  http_rpc_port = 8545;
  extra_args = [];
}
