-- ===== src/Mtls/Rounds.antt =====
-- The rounds of `Listen` and `listenOnce` of internal/adapters/mtls/client.go: what one read leads to,
-- and how the client ends.
use worldland_sdk.Base.{
  ℕ, zero, suc, ◌+◌, ◌≤◌, ◌≡◌, ◌≢◌, refl, ap, ◌∙◌, String, Option, none, some, true, arith,
}
use worldland_sdk.Go.Errors.{GoError, Result, ok, err}
use worldland_sdk.Go.Context.{closed_by}
use worldland_sdk.Go.Machine.{Machine, perform}
use worldland_sdk.Node.{Command, CommandAck}
use worldland_sdk.Mtls.{
  Conn, Network, Client, Phase, entering, reading, waiting, read_at, read_round, pausing, ended,
  round, rounds, left, hang_up, enter, read_from, received, answer, acknowledge, is_stopped,
}

pub later-closed :
    (stop_at : Option ℕ) (now soon : ℕ)
    → now ≤ soon
    → closed_by stop_at now ≡ true
    → closed_by stop_at soon ≡ true
later-closed none now soon later h = h
later-closed (some t) now soon later h = ground arith

module _ {W S F : Type 0} (net : Network W F)
    (on_command : Option (Command F → S × Machine W → CommandAck F × (S × Machine W)))
    (on_reconnected : Option (S × Machine W → S × Machine W)) where
  -- What a round of reading from `conn` comes to.
  pub data ReadOnce (conn : Conn) (c : Client W S) (l : Phase × Client W S) : Type 0 where
    waits : read_at net conn c.machine ≡ none → l ≡ (waiting conn, c) → ReadOnce conn c l
    broken :
        (e : GoError) (m : Machine W)
        → read_at net conn c.machine ≡ some (err e, m)
        → l
          ≡ left net on_command on_reconnected
              (hang_up net on_command on_reconnected conn (record c { machine = m }))
        → ReadOnce conn c l
    unreadable :
        (bytes : String) (m : Machine W)
        → read_at net conn c.machine ≡ some (ok bytes, m)
        → net.unmarshal bytes ≡ none
        → l ≡ (reading conn, record c { machine = m })
        → ReadOnce conn c l
    answered :
        (bytes : String) (m : Machine W) (cmd : Command F)
        → read_at net conn c.machine ≡ some (ok bytes, m)
        → net.unmarshal bytes ≡ some cmd
        → l ≡ (
          reading conn,
          acknowledge net on_command on_reconnected conn
              (answer net on_command on_reconnected on_command cmd (record c { machine = m })),
        )
        → ReadOnce conn c l

  pub hang_up-stopped :
      (conn : Conn) (c : Client W S)
      → is_stopped c ≡ true
      → is_stopped (hang_up net on_command on_reconnected conn c) ≡ true
  hang_up-stopped conn c h =
      later-closed c.stop_at c.machine.clock (perform (net.close conn) c.machine).1.clock
        (omega arith) h

  read_from-ReadOnce :
      (conn : Conn) (c : Client W S) (r : Result String) (m : Machine W)
      → read_at net conn c.machine ≡ some (r, m)
      → ReadOnce conn c (read_from net on_command on_reconnected conn r (record c { machine = m }))
  read_from-ReadOnce conn c (err e) m said = broken e m said refl
  read_from-ReadOnce conn c (ok bytes) m said = go (net.unmarshal bytes) refl
    where
      go :
          (o : Option (Command F))
          → net.unmarshal bytes ≡ o
          → ReadOnce conn c
              (received net on_command on_reconnected conn o (record c { machine = m }))
      go none e = unreadable bytes m said e refl
      go (some cmd) e = answered bytes m cmd said e refl

  -- In a round of waiting a client in whose read nothing has arrived waits on; one whose read fails
  -- hangs up and goes on to reconnect; bytes that are no command are passed over; and a command is
  -- answered on the connection that it came from by what its handler says, before the next read.
  pub round-ReadOnce :
      (conn : Conn) (c : Client W S)
      → ReadOnce conn c (round net on_command on_reconnected (waiting conn, c))
  unfolding round
  round-ReadOnce conn c = go (read_at net conn c.machine) refl
    where
      go :
          (o : Option (Result String × Machine W))
          → read_at net conn c.machine ≡ o
          → ReadOnce conn c (read_round net on_command on_reconnected conn o c)
      go none e = waits e refl
      go (some (r, m)) e = read_from-ReadOnce conn c r m e

  rounds-ended :
      (n : ℕ) (c : Client W S) → rounds net on_command on_reconnected n (ended, c) ≡ (ended, c)
  unfolding rounds round
  rounds-ended zero c = refl
  rounds-ended (suc n) c = rounds-ended n c

  stays_ended :
      (n : ℕ) (l : Phase × Client W S)
      → l.0 ≡ ended
      → (rounds net on_command on_reconnected n l).0 ≡ ended
  stays_ended n l e =
      ap (λ phase. (rounds net on_command on_reconnected n (phase, l.1)).0) e
      ∙ ap (λ l'. l'.0) (rounds-ended n l.1)

  -- A client that waits in a read has it fail, as the read of a connection does once it is closed.
  abbrev pub Fails : Phase → Client W S → Type 0
  Fails phase c =
      (conn : Conn)
      → phase ≡ waiting conn
      → (e : GoError) × (m : Machine W) × (c.machine.clock ≤ m.clock)
        × (read_at net conn c.machine ≡ some (err e, m))

  round-stopped :
      (phase : Phase) (c : Client W S)
      → is_stopped c ≡ true
      → Fails phase c
      → phase ≢ entering
      → (round net on_command on_reconnected (phase, c)).0 ≡ ended
  unfolding round
  round-stopped entering c h fails ne = absurd (ne refl)
  round-stopped (reading conn) c h fails ne = rw h (rw (hang_up-stopped conn c h))
  round-stopped (waiting conn) c h fails ne =
      let (e, m, later, said) = fails conn refl in
      rw said (
        rw
          (hang_up-stopped conn (record c { machine = m })
            (later-closed c.stop_at c.machine.clock m.clock later h))
          refl)
  round-stopped (pausing backoff) c h fails ne =
      rw (later-closed c.stop_at c.machine.clock (c.machine.clock + backoff) (omega arith) h)
  round-stopped ended c h fails ne = refl

  entered :
      (conn : Option Conn) (c : Client W S)
      → is_stopped c ≡ true
      → ((enter net on_command on_reconnected conn c).0 ≢ entering)
        × ((enter net on_command on_reconnected conn c).1 ≡ c)
        × Fails
            (enter net on_command on_reconnected conn c).0
            (enter net on_command on_reconnected conn c).1
  entered none c h = rw h ((λ e. cc), refl, λ conn e. absurd cc)
  entered (some conn) c h = ((λ e. cc), refl, λ conn' e. absurd cc)

  -- A client that was stopped, and that, if it waits in a read, has that read fail, has ended after
  -- two rounds, wherever it stood.
  pub rounds-stopped :
      (phase : Phase) (c : Client W S) (n : ℕ)
      → is_stopped c ≡ true
      → Fails phase c
      → (rounds net on_command on_reconnected (suc (suc n)) (phase, c)).0 ≡ ended
  unfolding rounds
  rounds-stopped phase c n h fails =
      stays_ended n
        (round net on_command on_reconnected (round net on_command on_reconnected (phase, c)))
        (go phase fails)
    where
      go :
          (p : Phase)
          → Fails p c
          → (round net on_command on_reconnected (round net on_command on_reconnected (p, c))).0
            ≡ ended
      go entering f =
          let l = enter net on_command on_reconnected c.conn c in
          let into = entered c.conn c h in
          unfold round in round-stopped l.0 l.1 (ap is_stopped into.1 ∙ h) into.2 into.0
      go (reading conn) f = stays_ended 1 _ (round-stopped (reading conn) c h f (λ e. cc))
      go (waiting conn) f = stays_ended 1 _ (round-stopped (waiting conn) c h f (λ e. cc))
      go (pausing backoff) f = stays_ended 1 _ (round-stopped (pausing backoff) c h f (λ e. cc))
      go ended f = stays_ended 1 _ (round-stopped ended c h f (λ e. cc))
