-- ===== src/Node/Heartbeat.antt =====
-- `buildHeartbeat` of internal/services/node_daemon.go: the JSON value of the message. The keys are
-- those of the struct tags in internal/domain/metrics.go.
pub mod Told
use worldland_sdk.Base.{
  ℕ, ◌≡◌, refl, sym, ap, ◌∙◌, String, Bool, true, false, Option, none, some, List, [], ◌∷◌, is_some,
  arith,
}
use worldland_sdk.Go.Errors.{Result}
use worldland_sdk.Gpu.{GpuMetrics, or_zero}
use worldland_sdk.Mining.{
  MiningDaemon, MiningState, MiningStatus, stopped, running, paused, status, is_running,
}

mutual
  pub data Value : Type 0 where
    text : String → Value
    whole : ℕ → Value
    items : Items → Value
    object : Fields → Value

  pub data Items : Type 0 where
    nil : Items
    cons : Value → Items → Items

  pub data Fields : Type 0 where
    end : Fields
    field : String → Value → Fields → Fields

abbrev pub metrics_value : GpuMetrics → Value
metrics_value g = object (
    field "uuid" (text g.uuid) (
      field "name" (text g.name) (
        field "memory_total_mb" (whole g.memory_total) (
          field "memory_used_mb" (whole g.memory_used) (
            field "gpu_util_percent" (whole g.gpu_util) (
              field "memory_util_percent" (whole g.memory_util)
                (field "temperature_c" (whole g.temperature) end)))))))

abbrev pub metrics_items : List GpuMetrics → Items
metrics_items [] = nil
metrics_items (g ∷ gs) = cons (metrics_value g) (metrics_items gs)

-- string(status.State)
abbrev pub state_text : MiningState → String
state_text stopped = "stopped"
state_text running = "running"
state_text paused = "paused"

-- What encoding/json and time make of values.
pub record Encoding : Type 0 where
  pub marshal : Value → Result String
  pub rfc3339 : ℕ → String

module _ (encoding : Encoding) where
  abbrev pub started_field : Option ℕ → Fields
  started_field none = end
  started_field (some t) = field "started_at" (text (encoding.rfc3339 t)) end

  abbrev pub mining_value : MiningStatus → Value
  mining_value s = object (
      field "state" (text (state_text s.state)) (
        field "container_id" (text s.container_id)
          (field "gpu_count" (whole s.gpu_count) (started_field s.started_at))))

  abbrev pub mining_field : {W : Type 0} → Option (MiningDaemon W) → Fields
  mining_field none = end
  mining_field (some m) = field "mining" (mining_value (status m)) end

  unfoldable pub heartbeat_value : {W : Type 0} → List GpuMetrics → Option (MiningDaemon W) → Value
  heartbeat_value metrics mining = object (
      field "type" (text "heartbeat") (
        field "payload"
          (object (field "gpu_metrics" (items (metrics_items metrics)) (mining_field mining))) end))

  unfoldable pub build_heartbeat : {W : Type 0} → List GpuMetrics → Option (MiningDaemon W) → String
  build_heartbeat metrics mining = or_zero "" (encoding.marshal (heartbeat_value metrics mining))
