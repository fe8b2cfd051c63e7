-- ===== src/Node/Heartbeat/Told.antt =====
-- What a reader finds in the messages of `buildHeartbeat` in internal/services/node_daemon.go, by the
-- keys of internal/domain/metrics.go.
use worldland_sdk.Base.{
  ℕ, ◌≡◌, refl, String, false, Option, none, some, List, [], ◌∷◌, length, IfAny, ◌==◌, String-eq,
  if◌then◌else◌,
}
use worldland_sdk.Gpu.{GpuMetrics}
use worldland_sdk.Mining.{
  MiningDaemon, MiningState, stopped, running, paused, status, is_running, available_gpus,
}
use worldland_sdk.Mining.History.{Inv}
use worldland_sdk.Node.Heartbeat.{
  Value, Items, Fields, text, whole, items, object, nil, cons, end, field, metrics_items, Encoding,
  mining_value, heartbeat_value, started_field, state_text,
}

-- The value of a key: the first with that key, in an object.
abbrev find : String → Fields → Option Value
find key end = none
find key (field k v fs) = if k == key then some v else find key fs

abbrev pub get : String → Value → Option Value
get key (object fs) = find key fs
get key _ = none

abbrev as_text : Option Value → Option String
as_text (some (text s)) = some s
as_text _ = none

abbrev as_whole : Option Value → Option ℕ
as_whole (some (whole n)) = some n
as_whole _ = none

abbrev as_items : Option Value → Option Items
as_items (some (items vs)) = some vs
as_items _ = none

abbrev pub text_at : String → Value → Option String
text_at key v = as_text (get key v)

abbrev pub whole_at : String → Value → Option ℕ
whole_at key v = as_whole (get key v)

abbrev pub items_at : String → Value → Option Items
items_at key v = as_items (get key v)

pub record TellsGpu (g : GpuMetrics) (v : Value) : Type 0 where
  pub uuid : text_at "uuid" v ≡ some g.uuid
  pub name : text_at "name" v ≡ some g.name
  pub memory_total : whole_at "memory_total_mb" v ≡ some g.memory_total
  pub memory_used : whole_at "memory_used_mb" v ≡ some g.memory_used
  pub gpu_util : whole_at "gpu_util_percent" v ≡ some g.gpu_util
  pub memory_util : whole_at "memory_util_percent" v ≡ some g.memory_util
  pub temperature : whole_at "temperature_c" v ≡ some g.temperature

-- One value for each GPU, in their order.
abbrev pub TellsGpus : List GpuMetrics → Items → Type 0
TellsGpus [] nil = Unit {0}
TellsGpus [] (cons v vs) = ⊥
TellsGpus (g ∷ gs) nil = ⊥
TellsGpus (g ∷ gs) (cons v vs) = TellsGpu g v × TellsGpus gs vs

abbrev pub Names : MiningState → String → Type 0
Names stopped s = s ≡ "stopped"
Names running s = s ≡ "running"
Names paused s = s ≡ "paused"

abbrev pub instant : (ℕ → String) → Option ℕ → Option String
instant print none = none
instant print (some t) = some (print t)

pub record TellsMining (encoding : Encoding) {W : Type 0} (m : MiningDaemon W) (v : Value)
    : Type 0 where
  pub state : String
  pub state_told : text_at "state" v ≡ some state
  pub names : Names m.state state
  pub container : text_at "container_id" v ≡ some m.container_id
  pub idle : is_running m.state ≡ false → text_at "container_id" v ≡ some ""
  pub gpu_count : whole_at "gpu_count" v ≡ some (length (available_gpus m))
  pub since : text_at "started_at" v ≡ instant encoding.rfc3339 m.started_at

abbrev pub TellsOfMining : Encoding → {W : Type 0} → Option (MiningDaemon W) → Option Value → Type 0
TellsOfMining encoding none o = o ≡ none
TellsOfMining encoding (some m) o = (v : Value) × (o ≡ some v) × TellsMining encoding m v

pub record Tells (encoding : Encoding) {W : Type 0} (metrics : List GpuMetrics)
    (mining : Option (MiningDaemon W)) (v : Value) : Type 0 where
  pub kind : text_at "type" v ≡ some "heartbeat"
  pub payload : Value
  pub has_payload : get "payload" v ≡ some payload
  pub gpus : Items
  pub has_gpus : items_at "gpu_metrics" payload ≡ some gpus
  pub of_gpus : TellsGpus metrics gpus
  pub of_mining : TellsOfMining encoding mining (get "mining" payload)

metrics-TellsGpus : (gs : List GpuMetrics) → TellsGpus gs (metrics_items gs)
metrics-TellsGpus [] = tt
metrics-TellsGpus (g ∷ gs) = (
  record {
    uuid = refl;
    name = refl;
    memory_total = refl;
    memory_used = refl;
    gpu_util = refl;
    memory_util = refl;
    temperature = refl;
  },
  metrics-TellsGpus gs,
)

module _ (encoding : Encoding) where
  state-Names : (state : MiningState) → Names state (state_text state)
  state-Names stopped = refl
  state-Names running = refl
  state-Names paused = refl

  started-instant :
      (at : Option ℕ)
      → as_text (find "started_at" (started_field encoding at)) ≡ instant encoding.rfc3339 at
  started-instant none = refl
  started-instant (some t) = refl

  mining-TellsMining :
      {W : Type 0} (m : MiningDaemon W)
      → Inv m
      → TellsMining encoding m (mining_value encoding (status m))
  unfolding status
  mining-TellsMining m v = record {
    state = state_text m.state;
    state_told = refl;
    names = state-Names m.state;
    container = refl;
    idle = λ e. rw (v.idle_empty e) refl;
    gpu_count = refl;
    since = started-instant m.started_at;
  }

  -- A heartbeat of a daemon whose fields agree with its state has the type "heartbeat" and, in its
  -- payload, one object for each GPU, in their order and with its metrics, and, exactly where there is
  -- a mining daemon, the name of its state, its container, which is empty unless it mines, how many
  -- GPUs it may use and, if it has one, the instant at which it started.
  pub heartbeat_value-Tells :
      {W : Type 0} (metrics : List GpuMetrics) (mining : Option (MiningDaemon W))
      → IfAny Inv mining
      → Tells encoding metrics mining (heartbeat_value encoding metrics mining)
  unfolding heartbeat_value
  heartbeat_value-Tells metrics none v = record {
    kind = refl;
    payload = _;
    has_payload = refl;
    gpus = metrics_items metrics;
    has_gpus = refl;
    of_gpus = metrics-TellsGpus metrics;
    of_mining = refl;
  }
  heartbeat_value-Tells metrics (some m) v = record {
    kind = refl;
    payload = _;
    has_payload = refl;
    gpus = metrics_items metrics;
    has_gpus = refl;
    of_gpus = metrics-TellsGpus metrics;
    of_mining = (mining_value encoding (status m), refl, mining-TellsMining m v);
  }
