-- ===== src/Examples/PortTests.antt =====
-- internal/port/manager.go on a range of three ports with a grace period of 50.
use worldland_sdk.Base.{◌+◌, ◌≡◌, ◌≢◌, ◌⊎◌, refl, true, some, none, [], ◌∷◌, ℕ-eq, arith}
use worldland_sdk.Go.Errors.{ok, err, sentinel, no_available_ports, is_ok}
use worldland_sdk.Go.Map.{lookup, insert}
use worldland_sdk.Go.Strconv.{atoi, itoa, pos}
use worldland_sdk.Go.Strconv.Roundtrip.{atoi-itoa}
use worldland_sdk.Port.{
  PortManager, new_port_manager, allocate, release, reserve, scan, available_count,
}
use worldland_sdk.Port.Scan.{Scanned, allocate-Scanned}
use worldland_sdk.Port.Lease.{holder}
use worldland_sdk.Port.Count.{available_count-allocate}
use worldland_sdk.Port.History.{allocates, releases, run, run-holder}
use worldland_sdk.Port.Grace.{Cooling, run-allocate-ne}
use worldland_sdk.Examples.World.{ports}

-- Port 30000 is held by "a".
abbrev one_held : PortManager
one_held = (reserve 1 "a" 30000 ports).1

-- Port 30000 was released at 10.
abbrev one_cooling : PortManager
one_cooling = (release 10 30000 one_held).1

second_port : (allocate 20 "b" one_cooling).0 ≡ ok 30001
unfolding allocate scan lookup release insert new_port_manager
second_port = refl

reused_port : (allocate 60 "b" one_cooling).0 ≡ ok 30000
unfolding allocate scan lookup release insert new_port_manager
reused_port = refl

held-by_a : holder one_held 30000 ≡ some "a"
unfolding holder lookup insert new_port_manager
held-by_a = refl

held-not_none : holder one_held 30000 ≢ none
held-not_none e = ground (arith, held-by_a)

cooling : Cooling 10 50 30000 one_cooling
unfolding release lookup insert new_port_manager
cooling = record {
  alloc = record { session_id = "a"; allocated_at = 1; released_at = some 10 };
  entry = refl;
  released = refl;
  period = refl;
}

allocate-Scanned_example : Scanned 20 "b" one_cooling 30000 30003 (allocate 20 "b" one_cooling)
unfolding release lookup insert new_port_manager
allocate-Scanned_example = allocate-Scanned 20 "b" one_cooling

available_count-allocate_example :
    (is_ok (allocate 20 "b" one_cooling).0 ≡ true)
      × (available_count 20 (allocate 20 "b" one_cooling).1 + 1 ≡ available_count 20 one_cooling)
    ⊎ (allocate 20 "b" one_cooling ≡ (err (sentinel no_available_ports), one_cooling))
      × (available_count 20 one_cooling ≡ 0)
available_count-allocate_example = available_count-allocate 20 "b" one_cooling

run-holder_example :
    holder (run one_held (allocates 5 "b" ∷ releases 6 30001 ∷ [])) 30000 ≡ some "a"
run-holder_example =
    run-holder one_held (allocates 5 "b" ∷ releases 6 30001 ∷ []) 30000 "a"
      (tt, ((λ e. omega arith), tt)) held-by_a

run-allocate-ne_example :
    (allocate 59 "c" (run one_cooling (allocates 20 "b" ∷ releases 30 30000 ∷ []))).0 ≢ ok 30000
run-allocate-ne_example =
    run-allocate-ne 10 50 30000 59 "c" one_cooling (allocates 20 "b" ∷ releases 30 30000 ∷ [])
      (omega arith, (omega arith, tt)) cooling (omega arith)

atoi-itoa_example : atoi (itoa 30000) ≡ some (pos 30000)
atoi-itoa_example = atoi-itoa 30000 (omega arith)
