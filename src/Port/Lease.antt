-- ===== src/Port/Lease.antt =====
-- The abstract view of internal/port/manager.go: which session holds which port.
use worldland_sdk.Base.{
  ℕ, String, ◌≡◌, refl, ◌↔◌, ◌≢◌, true, Option, none, some, arith, if◌then◌else◌, ◌==◌, ℕ-eq,
  nat_eq_iff,
}
use worldland_sdk.Go.Errors.{Result, ok, err, sentinel, no_available_ports}
use worldland_sdk.Go.Map.{lookup, lookup-insert}
use worldland_sdk.Port.{
  PortManager, Allocation, reserve, allocate, release, mark_released, is_available,
}
use worldland_sdk.Port.Scan.{Scanned, found, full, allocate-Scanned}

abbrev pub held_by : Option Allocation → Option String
held_by none = none
held_by (some alloc) = elim alloc.released_at [ none ↦ some alloc.session_id | some _ ↦ none ]

-- The session that has the port and has not released it.
unfoldable pub holder : PortManager → ℕ → Option String
holder pm port = held_by (lookup port pm.allocations)

-- A held port is not available.
pub available-holder :
    (now port : ℕ) (pm : PortManager) → is_available now port pm ≡ true → holder pm port ≡ none
unfolding is_available holder
available-holder now port pm h = ground arith

pub holder-reserve :
    (now : ℕ) (session_id : String) (port q : ℕ) (pm : PortManager)
    → holder (reserve now session_id port pm).1 q
      ≡ (if port == q then some session_id else holder pm q)
unfolding holder
holder-reserve now session_id port q pm = simp lookup-insert (ground arith)

-- A success gives the session a port of the range that nobody held, and moves no other lease; a
-- failure changes no lease.
pub data Leased (session_id : String) (pm : PortManager) (r : Result ℕ × PortManager) : Type 0 where
  leased :
      (port : ℕ)
      → r.0 ≡ ok port
      → holder pm port ≡ none
      → ((q : ℕ) → holder r.1 q ≡ (if port == q then some session_id else holder pm q))
      → Leased session_id pm r
  refused : r.0 ≡ err (sentinel no_available_ports) → r.1 ≡ pm → Leased session_id pm r

-- A success of `Allocate` gives the session a port that nobody held and moves no other lease; a
-- failure says that no port is available and changes nothing.
pub allocate-Leased :
    (now : ℕ) (session_id : String) (pm : PortManager)
    → Leased session_id pm (allocate now session_id pm)
allocate-Leased now session_id pm = go (allocate-Scanned now session_id pm)
  where
    go :
        {lo hi : ℕ} {r : Result ℕ × PortManager}
        → Scanned now session_id pm lo hi r
        → Leased session_id pm r
    go (found port lo up av below e) = rw e (
        leased port refl (available-holder now port pm av)
          (λ q. holder-reserve now session_id port q pm))
    go (full none_free e) = rw e (refused refl refl)

holder-mark_released :
    (now port q : ℕ) (pm : PortManager) (o : Option Allocation)
    → lookup port pm.allocations ≡ o
    → holder (mark_released now port o pm).1 q ≡ (if port == q then none else holder pm q)
unfolding holder
holder-mark_released now port q pm none e = ground (arith, nat_eq_iff port q)
holder-mark_released now port q pm (some alloc) e = ground (
  arith,
  nat_eq_iff port q,
  lookup-insert port q (record alloc { released_at = some now }) pm.allocations,
)

-- Whether or not it succeeds, `Release` leaves the port without a holder and every other as it was.
pub holder-release :
    (now port q : ℕ) (pm : PortManager)
    → holder (release now port pm).1 q ≡ (if port == q then none else holder pm q)
unfolding release
holder-release now port q pm = holder-mark_released now port q pm (lookup port pm.allocations) refl

-- `Release` succeeds exactly where somebody holds the port.
pub release_iff :
    (now port : ℕ) (pm : PortManager) → ((release now port pm).0 ≡ ok tt) ↔ (holder pm port ≢ none)
unfolding holder release
release_iff now port pm = go (lookup port pm.allocations)
  where
    go : (o : Option Allocation) → ((mark_released now port o pm).0 ≡ ok tt) ↔ (held_by o ≢ none)
    go none = ground arith
    go (some alloc) = ground arith
