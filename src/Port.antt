-- ===== src/Port.antt =====
-- internal/port/manager.go: `PortManager`. The mutex makes each method one step on the record;
-- `time.Now()` is the argument `now` of a method. Ports are the non-negative ints of the range.
pub mod Scan
pub mod Lease
pub mod Count
pub mod History
pub mod Grace
use worldland_sdk.Base.{
  ℕ, zero, suc, ◌+◌, ◌-◌, String, Bool, true, false, ◌&&◌, Option, none, some, [], leb,
  if◌then◌else◌, ℕ-eq,
}
use worldland_sdk.Go.Errors.{Result, ok, err, sentinel, no_available_ports, port_not_allocated}
use worldland_sdk.Go.Map.{Map, lookup, insert}

pub record Allocation : Type 0 where
  pub session_id : String
  pub allocated_at : ℕ
  pub released_at : Option ℕ

pub record PortManager : Type 0 where
  pub min_port : ℕ
  pub max_port : ℕ
  pub grace_period : ℕ
  pub allocations : Map ℕ Allocation

unfoldable pub new_port_manager : ℕ → ℕ → ℕ → PortManager
new_port_manager min_port max_port grace_period = record {
  min_port = min_port;
  max_port = max_port;
  grace_period = grace_period;
  allocations = [];
}

-- released != nil && now.Sub(*released) >= grace; `Sub` is negative where `now` is earlier.
abbrev pub grace_over : ℕ → ℕ → Option ℕ → Bool
grace_over grace now none = false
grace_over grace now (some released) = leb released now && leb grace (now - released)

abbrev pub fresh : String → ℕ → Allocation
fresh session_id now = record { session_id = session_id; allocated_at = now; released_at = none }

-- pm.allocations[port] = &Allocation{…}; return port, nil
abbrev pub reserve : ℕ → String → ℕ → PortManager → Result ℕ × PortManager
reserve now session_id port pm =
    (ok port, record pm { allocations = insert port (fresh session_id now) pm.allocations })

-- for port := …; port <= pm.maxPort; port++, by the rounds that are left
unfoldable pub scan : ℕ → ℕ → ℕ → String → PortManager → Result ℕ × PortManager
scan zero port now session_id pm = (err (sentinel no_available_ports), pm)
scan (suc rounds) port now session_id pm =
    let rest = scan rounds (port + 1) now session_id pm in
    let taken = reserve now session_id port pm in
    elim (lookup port pm.allocations) [
      | none ↦ taken
      | some alloc ↦ if grace_over pm.grace_period now alloc.released_at then taken else rest
    ]

abbrev pub range_size : PortManager → ℕ
range_size pm = pm.max_port + 1 - pm.min_port

unfoldable pub allocate : ℕ → String → PortManager → Result ℕ × PortManager
allocate now session_id pm = scan (range_size pm) pm.min_port now session_id pm

abbrev mark_released : ℕ → ℕ → Option Allocation → PortManager → Result (Unit {0}) × PortManager
mark_released now port none pm = (err (sentinel port_not_allocated), pm)
mark_released now port (some alloc) pm = elim alloc.released_at [
  | some _ ↦ (err (sentinel port_not_allocated), pm)
  | none ↦ (
    ok tt,
    record pm {
      allocations = insert port (record alloc { released_at = some now }) pm.allocations;
    },
  )
]

unfoldable pub release : ℕ → ℕ → PortManager → Result (Unit {0}) × PortManager
release now port pm = mark_released now port (lookup port pm.allocations) pm

abbrev pub entry_available : ℕ → ℕ → Option Allocation → Bool
entry_available grace now none = true
entry_available grace now (some alloc) = grace_over grace now alloc.released_at

unfoldable pub is_available : ℕ → ℕ → PortManager → Bool
is_available now port pm = entry_available pm.grace_period now (lookup port pm.allocations)

unfoldable pub get_allocation : ℕ → PortManager → Option Allocation
get_allocation port pm = lookup port pm.allocations

unfoldable pub count_from : ℕ → ℕ → ℕ → ℕ → PortManager → ℕ
count_from zero port count now pm = count
count_from (suc rounds) port count now pm =
    count_from rounds (port + 1)
      (elim (lookup port pm.allocations) [
        | none ↦ count + 1
        | some alloc ↦ if grace_over pm.grace_period now alloc.released_at then count + 1 else count
      ])
      now pm

unfoldable pub available_count : ℕ → PortManager → ℕ
available_count now pm = count_from (range_size pm) pm.min_port 0 now pm
