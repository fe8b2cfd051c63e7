-- ===== src/Port/Scan.antt =====
-- What `Allocate` of internal/port/manager.go does on every branch: a scan for the lowest port.
use worldland_sdk.Base.{
  ℕ, zero, suc, ◌+◌, ◌-◌, ◌≤◌, ◌<◌, String, ◌≡◌, refl, true, false, arith, Bool-cases, inl, inr,
  if◌then◌else◌, ℕ-eq,
}
use worldland_sdk.Go.Errors.{Result, err, sentinel, no_available_ports}
use worldland_sdk.Port.{PortManager, reserve, scan, allocate, is_available, range_size}

-- The two ways in which a scan of the ports `lo ≤ q < hi` ends.
pub data Scanned (now : ℕ) (session_id : String) (pm : PortManager) (lo hi : ℕ)
    (r : Result ℕ × PortManager) : Type 0 where
  found :
      (port : ℕ)
      → lo ≤ port
      → port < hi
      → is_available now port pm ≡ true
      → ((q : ℕ) → lo ≤ q → q < port → is_available now q pm ≡ false)
      → r ≡ reserve now session_id port pm
      → Scanned now session_id pm lo hi r
  full :
      ((q : ℕ) → lo ≤ q → q < hi → is_available now q pm ≡ false)
      → r ≡ (err (sentinel no_available_ports), pm)
      → Scanned now session_id pm lo hi r

-- One round: the port is taken if it is available, else the scan goes on.
scan-suc :
    (rounds port now : ℕ) (session_id : String) (pm : PortManager)
    → scan (suc rounds) port now session_id pm ≡ (
        if is_available now port pm
        then reserve now session_id port pm
        else scan rounds (port + 1) now session_id pm)
unfolding scan is_available
scan-suc rounds port now session_id pm = ground arith

widen :
    (now port : ℕ) (session_id : String) (pm : PortManager) (hi : ℕ) {r : Result ℕ × PortManager}
    → is_available now port pm ≡ false
    → Scanned now session_id pm (port + 1) hi r
    → Scanned now session_id pm port hi r
widen now port session_id pm hi h (found p lo up av below e) =
    found p (omega arith) up av (λ q l u. ground (arith, below q)) e
widen now port session_id pm hi h (full none_free e) = full (λ q l u. ground (arith, none_free q)) e

pub scan-Scanned :
    (rounds port now : ℕ) (session_id : String) (pm : PortManager) (hi : ℕ)
    → rounds ≡ hi - port
    → Scanned now session_id pm port hi (scan rounds port now session_id pm)
scan-Scanned zero port now session_id pm hi e =
    full (λ q l u. absurd (omega arith)) (unfold scan in refl)
scan-Scanned (suc rounds) port now session_id pm hi e =
    elim (Bool-cases (is_available now port pm)) [
      | inl av ↦
          found port (omega arith) (omega arith) av (λ q l u. absurd (omega arith))
            (rw (scan-suc, av))
      | inr busy ↦
          rw (scan-suc, busy)
            (widen now port session_id pm hi busy
              (scan-Scanned rounds (port + 1) now session_id pm hi (omega arith)))
    ]

-- `Allocate` takes the lowest available port of the range for the session and leaves the rest of
-- the table alone; it fails, changing nothing, exactly where no port of the range is available.
pub allocate-Scanned :
    (now : ℕ) (session_id : String) (pm : PortManager)
    → Scanned now session_id pm pm.min_port (pm.max_port + 1) (allocate now session_id pm)
unfolding allocate
allocate-Scanned now session_id pm =
    scan-Scanned (range_size pm) pm.min_port now session_id pm (pm.max_port + 1) refl
