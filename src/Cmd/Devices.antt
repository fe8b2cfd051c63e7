-- ===== src/Cmd/Devices.antt =====
-- The GPUs that a container of the mining daemon sees, with the configuration of cmd/node/main.go.
use worldland_sdk.Base.{
  ◌≡◌, ap, ◌∙◌, sym, ◌⊎◌, inl, inr, Bool-cases, String, Bool, true, List, [], ◌∷◌, map, All,
  String-eq, text_iff, arith,
}
use worldland_sdk.Go.Map.{Map}
use worldland_sdk.Container.{gpu_device, is_gpu_uuid, container_config, ◌<>◌}
use worldland_sdk.Mining.{MiningDaemon, mining_container, available_gpus}
use worldland_sdk.Mining.Config.{MiningConfig}
use worldland_sdk.Mining.Rented.{unrented, available_of, is_rented}
use worldland_sdk.Gpu.{GpuSpec}
use worldland_sdk.Cmd.{mining_config}

unrented-head :
    (rented : Map String Bool) (specs : List GpuSpec) (gpu : String) (gpus : List String)
    → All (λ (spec : GpuSpec). is_gpu_uuid spec.uuid ≡ true) specs
    → unrented rented (map (λ (spec : GpuSpec). spec.uuid) specs) ≡ gpu ∷ gpus
    → is_gpu_uuid gpu ≡ true
unfolding unrented
unrented-head rented [] gpu gpus h e = cc
unrented-head rented (spec ∷ specs) gpu gpus h e = elim (Bool-cases (is_rented rented spec.uuid)) [
  | inl out ↦ unrented-head rented specs gpu gpus h.1 (rw out at e)
  | inr free ↦
      let rest = unrented rented (map (λ (other : GpuSpec). other.uuid) specs) in
      let same : spec.uuid ∷ rest ≡ gpu ∷ gpus = rw free at e in ground (arith, h.0, same)
]

available-head :
    (rented : Map String Bool) (specs : List GpuSpec) (gpu : String) (gpus : List String)
    → All (λ (spec : GpuSpec). is_gpu_uuid spec.uuid ≡ true) specs
    → available_of rented (map (λ (spec : GpuSpec). spec.uuid) specs) ≡ gpu ∷ gpus
    → (is_gpu_uuid gpu ≡ true) ⊎ (gpu ≡ "all")
available-head rented [] gpu gpus h e = ground (arith, e)
available-head rented (spec ∷ specs) gpu gpus h e =
    inl (unrented-head rented (spec ∷ specs) gpu gpus h e)

gpu_device-all :
    (config : MiningConfig) (gpu : String)
    → (is_gpu_uuid gpu ≡ true) ⊎ (gpu ≡ "all")
    → gpu_device (mining_container config gpu) ≡ "all"
unfolding gpu_device
gpu_device-all config gpu h = ground (arith, text_iff gpu "all")

-- Where NVML's UUIDs are UUIDs, the container that mines on the first GPU that is not rented sees
-- every GPU of the machine, the rented ones as well.
pub mining_container-env :
    {W : Type 0} (m : MiningDaemon W) (wallet_address image data_dir : String)
    (specs : List GpuSpec) (gpu : String) (gpus : List String)
    → m.config ≡ mining_config wallet_address image data_dir specs
    → All (λ (spec : GpuSpec). is_gpu_uuid spec.uuid ≡ true) specs
    → available_gpus m ≡ gpu ∷ gpus
    → (container_config (mining_container m.config gpu)).env
      ≡ "NVIDIA_VISIBLE_DEVICES=all" ∷ "NVIDIA_DRIVER_CAPABILITIES=all" ∷ []
unfolding available_gpus mining_config container_config
mining_container-env m wallet_address image data_dir specs gpu gpus config uuids free =
    ap (λ device. ("NVIDIA_VISIBLE_DEVICES=" <> device) ∷ "NVIDIA_DRIVER_CAPABILITIES=all" ∷ [])
      (gpu_device-all m.config gpu (available-head m.paused_gpus specs gpu gpus uuids (ids ∙ free)))
  where
    ids : available_of m.paused_gpus (map (λ (spec : GpuSpec). spec.uuid) specs) ≡ available_gpus m
    ids = ap (λ (c : MiningConfig). available_of m.paused_gpus c.gpu_device_ids) (sym config)
