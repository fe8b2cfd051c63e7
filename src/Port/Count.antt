-- ===== src/Port/Count.antt =====
-- `AvailableCount` of internal/port/manager.go against the ports that are available one by one.
use worldland_sdk.Base.{
  ℕ, zero, suc, ◌+◌, ◌≤◌, ◌<◌, String, ◌≡◌, refl, true, false, arith, inl, inr, ◌⊎◌, if◌then◌else◌,
  ◌==◌, ◌∙◌, ℕ-eq, List, [], ◌∷◌, length,
}
use worldland_sdk.Go.Errors.{err, sentinel, no_available_ports, is_ok}
use worldland_sdk.Go.Map.{lookup-insert}
use worldland_sdk.Port.{
  PortManager, reserve, allocate, is_available, count_from, available_count, range_size,
}
use worldland_sdk.Port.Scan.{found, full, allocate-Scanned}

-- The available ones of the `rounds` ports from `port` on.
unfoldable pub available_ports : ℕ → ℕ → ℕ → PortManager → List ℕ
available_ports zero port now pm = []
available_ports (suc rounds) port now pm =
    let rest = available_ports rounds (port + 1) now pm in
    if is_available now port pm then port ∷ rest else rest

count_from-length :
    (rounds port count now : ℕ) (pm : PortManager)
    → count_from rounds port count now pm ≡ count + length (available_ports rounds port now pm)
unfolding count_from available_ports is_available
count_from-length zero port count now pm = omega arith
count_from-length (suc rounds) port count now pm = ground (
  arith,
  count_from-length rounds (port + 1) count now pm,
  count_from-length rounds (port + 1) (count + 1) now pm,
)

pub available_count-length :
    (now : ℕ) (pm : PortManager)
    → available_count now pm ≡ length (available_ports (range_size pm) pm.min_port now pm)
unfolding available_count
available_count-length now pm = count_from-length (range_size pm) pm.min_port 0 now pm ∙ omega arith

-- The port that is reserved is available no more; the others are as they were.
is_available-reserve :
    (now : ℕ) (session_id : String) (port q : ℕ) (pm : PortManager)
    → is_available now q (reserve now session_id port pm).1
      ≡ (if port == q then false else is_available now q pm)
unfolding is_available
is_available-reserve now session_id port q pm = simp lookup-insert (ground arith)

length-reserve_above :
    (rounds lo now : ℕ) (session_id : String) (port : ℕ) (pm : PortManager)
    → port < lo
    → length (available_ports rounds lo now (reserve now session_id port pm).1)
      ≡ length (available_ports rounds lo now pm)
unfolding available_ports
length-reserve_above zero lo now session_id port pm h = refl
length-reserve_above (suc rounds) lo now session_id port pm h = ground (
  arith,
  is_available-reserve now session_id port lo pm,
  length-reserve_above rounds (lo + 1) now session_id port pm,
)

length-reserve :
    (rounds lo now : ℕ) (session_id : String) (port : ℕ) (pm : PortManager)
    → lo ≤ port
    → port < lo + rounds
    → is_available now port pm ≡ true
    → length (available_ports rounds lo now (reserve now session_id port pm).1) + 1
      ≡ length (available_ports rounds lo now pm)
unfolding available_ports
length-reserve zero lo now session_id port pm l u av = absurd (omega arith)
length-reserve (suc rounds) lo now session_id port pm l u av = ground (
  arith,
  is_available-reserve now session_id port lo pm,
  length-reserve_above rounds (lo + 1) now session_id port pm,
  length-reserve rounds (lo + 1) now session_id port pm,
)

none_free-length :
    (rounds lo now : ℕ) (pm : PortManager)
    → ((q : ℕ) → lo ≤ q → q < lo + rounds → is_available now q pm ≡ false)
    → length (available_ports rounds lo now pm) ≡ 0
unfolding available_ports
none_free-length zero lo now pm h = refl
none_free-length (suc rounds) lo now pm h =
    rw (h lo (omega arith) (omega arith))
      (none_free-length rounds (lo + 1) now pm (λ q l u. h q (omega arith) (omega arith)))

available_count-reserve :
    (now : ℕ) (session_id : String) (port : ℕ) (pm : PortManager)
    → pm.min_port ≤ port
    → port < pm.max_port + 1
    → is_available now port pm ≡ true
    → available_count now (reserve now session_id port pm).1 + 1 ≡ available_count now pm
available_count-reserve now session_id port pm lo up av = omega (
  arith,
  available_count-length now (reserve now session_id port pm).1,
  available_count-length now pm,
  length-reserve (range_size pm) pm.min_port now session_id port pm lo (omega arith) av,
)

available_count-full :
    (now : ℕ) (pm : PortManager)
    → ((q : ℕ) → pm.min_port ≤ q → q < pm.max_port + 1 → is_available now q pm ≡ false)
    → available_count now pm ≡ 0
available_count-full now pm none_free =
    available_count-length now pm
    ∙ none_free-length (range_size pm) pm.min_port now pm (λ q l u. none_free q l (omega arith))

-- `Allocate` succeeds and takes one off `AvailableCount`, or it fails, changing nothing, and
-- `AvailableCount` is 0.
pub available_count-allocate :
    (now : ℕ) (session_id : String) (pm : PortManager)
    → (is_ok (allocate now session_id pm).0 ≡ true)
        × (available_count now (allocate now session_id pm).1 + 1 ≡ available_count now pm)
      ⊎ (allocate now session_id pm ≡ (err (sentinel no_available_ports), pm))
        × (available_count now pm ≡ 0)
available_count-allocate now session_id pm = elim (allocate-Scanned now session_id pm) [
  | found port lo up av below e ↦
      inl (rw e (refl, available_count-reserve now session_id port pm lo up av))
  | full none_free e ↦ inr (e, available_count-full now pm none_free)
]
