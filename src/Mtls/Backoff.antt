-- ===== src/Mtls/Backoff.antt =====
-- The pauses between the attempts of `Listen` of internal/adapters/mtls/client.go to reconnect.
use worldland_sdk.Base.{
  ℕ, zero, suc, String, ◌+◌, ◌≤◌, Option, none, some, ltb, if◌then◌else◌, Bool-cases, inl, inr,
  arith,
}
use worldland_sdk.Go.Errors.{Result, ok, err}
use worldland_sdk.Go.Context.{closed_by}
use worldland_sdk.Go.Machine.{Machine}
use worldland_sdk.Node.{Command, CommandAck}
use worldland_sdk.Mtls.{
  Network, Client, Phase, entering, reading, waiting, read_at, read_round, pausing, ended,
  min_backoff, max_backoff, next_backoff, round, rounds, left, enter, read_from, received, hang_up,
  reconnected, is_stopped,
}

-- Half a minute doubled is a minute; a minute stays a minute.
abbrev pub capped : ℕ → ℕ
capped d = if ltb max_backoff d then max_backoff else d

abbrev pub InBounds : Phase → Type 0
InBounds (pausing backoff) = (min_backoff ≤ backoff) × (backoff ≤ max_backoff)
InBounds entering = Unit {0}
InBounds (reading conn) = Unit {0}
InBounds (waiting conn) = Unit {0}
InBounds ended = Unit {0}

module _ {W S F : Type 0} (net : Network W F)
    (on_command : Option (Command F → S × Machine W → CommandAck F × (S × Machine W)))
    (on_reconnected : Option (S × Machine W → S × Machine W)) where
  left-InBounds : (c : Client W S) → InBounds (left net on_command on_reconnected c).0
  left-InBounds c = elim (Bool-cases (is_stopped c)) [
    | inl e ↦ rw e tt
    | inr e ↦ rw e (omega arith, omega arith)
  ]

  reconnected-InBounds :
      (backoff : ℕ) (r : Result (Unit {0})) (c : Client W S)
      → InBounds (pausing backoff)
      → InBounds (reconnected net on_command on_reconnected backoff (r, c)).0
  unfolding next_backoff
  reconnected-InBounds backoff (ok done) c h = tt
  reconnected-InBounds backoff (err e) c h = (ground arith, ground arith)

  read_from-InBounds :
      (conn : _) (r : Result _) (c : Client W S)
      → InBounds (read_from net on_command on_reconnected conn r c).0
  read_from-InBounds conn (err e) c = left-InBounds (hang_up net on_command on_reconnected conn c)
  read_from-InBounds conn (ok bytes) c = go (net.unmarshal bytes)
    where
      go : (o : Option (Command F)) → InBounds (received net on_command on_reconnected conn o c).0
      go none = tt
      go (some cmd) = tt

  round-InBounds :
      (phase : Phase) (c : Client W S)
      → InBounds phase
      → InBounds (round net on_command on_reconnected (phase, c)).0
  unfolding round
  round-InBounds entering c h = go c.conn
    where
      go : (o : Option _) → InBounds (enter net on_command on_reconnected o c).0
      go none = left-InBounds c
      go (some conn) = tt
  round-InBounds (reading conn) c h = elim (Bool-cases (is_stopped c)) [
    | inl e ↦ rw e (left-InBounds (hang_up net on_command on_reconnected conn c))
    | inr e ↦ rw e tt
  ]
  round-InBounds (waiting conn) c h = go (read_at net conn c.machine)
    where
      go :
          (o : Option (Result String × Machine W))
          → InBounds (read_round net on_command on_reconnected conn o c).0
      go none = tt
      go (some (r, m)) = read_from-InBounds conn r (record c { machine = m })
  round-InBounds (pausing backoff) c h =
      elim (Bool-cases (closed_by c.stop_at (c.machine.clock + backoff))) [
        | inl e ↦ rw e tt
        | inr e ↦ rw e (reconnected-InBounds backoff _ _ h)
      ]
  round-InBounds ended c h = tt

  -- However long the client runs, it never pauses for less than 5 seconds or for more than 60 before
  -- it reconnects.
  pub rounds-InBounds :
      (n : ℕ) (phase : Phase) (c : Client W S)
      → InBounds phase
      → InBounds (rounds net on_command on_reconnected n (phase, c)).0
  unfolding rounds
  rounds-InBounds zero phase c h = h
  rounds-InBounds (suc n) phase c h =
      let l = round net on_command on_reconnected (phase, c) in
      rounds-InBounds n l.0 l.1 (round-InBounds phase c h)
