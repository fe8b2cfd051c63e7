-- ===== src/Mtls.antt =====
-- internal/adapters/mtls/client.go: `Client`, the connection to the hub. `Listen` runs by rounds, one
-- for each pass through a loop. The network and the JSON texts are parameters; log lines are left out.
pub mod Backoff
pub mod Rounds
pub mod Keeps
use worldland_sdk.Base.{
  ℕ, zero, suc, ◌+◌, ◌*◌, String, Bool, Option, none, some, [], ltb, leb, if◌then◌else◌,
}
use worldland_sdk.Go.Errors.{GoError, text, wrap, Result, ok, err, Act, ignoring}
use worldland_sdk.Go.Context.{second, closed_by}
use worldland_sdk.Go.Machine.{Machine, Reply, Outside, moved, perform, sleep}
use worldland_sdk.Node.{Command, CommandAck}

-- net.Conn, by its handle
pub record Conn : Type 0 where
  pub handle : ℕ

-- What the client calls: crypto/tls with its configuration, the connection, and encoding/json on the
-- two message types. A read yields the bytes of one call of `Read`, 4096 at most, or it waits, as long
-- as nothing has arrived and nobody has closed the connection.
pub record Network (W F : Type 0) : Type 0 where
  pub dial : Outside W Conn
  pub handshake : Conn → Outside W (Unit {0})
  pub read : Conn → W → Option (Reply String W)
  pub write : Conn → String → Outside W (Unit {0})
  pub close : Conn → Outside W (Unit {0})
  pub unmarshal : String → Option (Command F)
  pub marshal : CommandAck F → String

-- `stop_at` is the instant at which stopCh is closed; `app` is what the callbacks change.
pub record Client (W S : Type 0) : Type 0 where
  pub machine : Machine W
  pub conn : Option Conn
  pub stop_at : Option ℕ
  pub app : S

unfoldable pub new_client : {W S : Type 0} → Machine W → S → Client W S
new_client machine app = record { machine = machine; conn = none; stop_at = none; app = app }

-- Where `Listen` stands: at the start of `listenOnce`, at the `select` of its loop, in its `Read`, in
-- the loop that reconnects with the next pause, or at its end.
pub data Phase : Type 0 where
  entering : Phase
  reading waiting : Conn → Phase
  pausing : ℕ → Phase
  ended : Phase

abbrev pub is_stopped : {W S : Type 0} → Client W S → Bool
is_stopped c = closed_by c.stop_at c.machine.clock

abbrev pub min_backoff : ℕ
min_backoff = 5 * second

abbrev pub max_backoff : ℕ
max_backoff = 60 * second

unfoldable pub next_backoff : ℕ → ℕ
next_backoff backoff = if ltb max_backoff (backoff * 2) then max_backoff else backoff * 2

abbrev stopped_clock : ℕ → Option ℕ → ℕ
stopped_clock now none = now
stopped_clock now (some t) = if leb t now then now else t

-- The wait for stopCh is over.
abbrev pub at_stop : {W S : Type 0} → Client W S → Client W S
at_stop c = record c {
  machine = record c.machine { clock = stopped_clock c.machine.clock c.stop_at };
}

abbrev pub timed :
    {W : Type 0} → Machine W → Option (Reply String W) → Option (Result String × Machine W)
timed m none = none
timed m (some reply) = some (moved m reply)

-- What a read of the connection yields, if it does not wait.
abbrev pub read_at :
    {W F : Type 0} → Network W F → Conn → Machine W → Option (Result String × Machine W)
read_at net conn m = timed m (net.read conn m.world)

module _ {W S F : Type 0} (net : Network W F)
    (on_command : Option (Command F → S × Machine W → CommandAck F × (S × Machine W)))
    (on_reconnected : Option (S × Machine W → S × Machine W)) where
  abbrev pub hang_up : Conn → Client W S → Client W S
  hang_up conn c = record c { machine = ignoring (perform (net.close conn) c.machine) }

  abbrev pub shaken : Conn → Result (Unit {0}) → Act (Client W S) (Unit {0})
  shaken conn (ok done) c = (ok tt, record c { conn = some conn })
  shaken conn (err e) c = (err (wrap "TLS handshake failed" e), hang_up conn c)

  abbrev pub dialled : Result Conn → Act (Client W S) (Unit {0})
  dialled (err e) c = (err e, c)
  dialled (ok conn) c =
      let (r, m) = perform (net.handshake conn) c.machine in
      shaken conn r (record c { machine = m })

  unfoldable pub connect : Act (Client W S) (Unit {0})
  connect c = let (r, m) = perform net.dial c.machine in dialled r (record c { machine = m })

  -- `Listen` after a `listenOnce`
  abbrev pub left : Client W S → Phase × Client W S
  left c = (if is_stopped c then ended else pausing min_backoff, c)

  abbrev pub enter : Option Conn → Client W S → Phase × Client W S
  enter none c = left c
  enter (some conn) c = (reading conn, c)

  abbrev pub answer :
      Option (Command F → S × Machine W → CommandAck F × (S × Machine W))
      → Command F
      → Client W S
      → CommandAck F × Client W S
  answer none cmd c = (record { command_id = cmd.id; status = "ok"; error = ""; payload = [] }, c)
  answer (some handle) cmd c =
      let (ack, (app, m)) = handle cmd (c.app, c.machine) in
      (ack, record c { app = app; machine = m })

  abbrev pub acknowledge : Conn → CommandAck F × Client W S → Client W S
  acknowledge conn (ack, c) = record c {
    machine = ignoring (perform (net.write conn (net.marshal ack)) c.machine);
  }

  abbrev pub received : Conn → Option (Command F) → Client W S → Phase × Client W S
  received conn none c = (reading conn, c)
  received conn (some cmd) c = (reading conn, acknowledge conn (answer on_command cmd c))

  abbrev pub read_from : Conn → Result String → Client W S → Phase × Client W S
  read_from conn (err e) c = left (hang_up conn c)
  read_from conn (ok bytes) c = received conn (net.unmarshal bytes) c

  -- case <-c.stopCh
  abbrev pub select_round : Conn → Client W S → Phase × Client W S
  select_round conn c = if is_stopped c then left (hang_up conn c) else (waiting conn, c)

  abbrev pub read_round :
      Conn → Option (Result String × Machine W) → Client W S → Phase × Client W S
  read_round conn none c = (waiting conn, c)
  read_round conn (some (r, m)) c = read_from conn r (record c { machine = m })

  abbrev call_back : Option (S × Machine W → S × Machine W) → Client W S → Client W S
  call_back none c = c
  call_back (some f) c = let (app, m) = f (c.app, c.machine) in record c { app = app; machine = m }

  abbrev pub reconnected : ℕ → Result (Unit {0}) × Client W S → Phase × Client W S
  reconnected backoff (err e, c) = (pausing (next_backoff backoff), c)
  reconnected backoff (ok done, c) = (entering, call_back on_reconnected c)

  abbrev pub pause_round : ℕ → Client W S → Phase × Client W S
  pause_round backoff c =
      if closed_by c.stop_at (c.machine.clock + backoff)
      then (ended, at_stop c)
      else reconnected backoff (connect (record c { machine = sleep backoff c.machine }))

  -- One pass through the loop in which `Listen` stands.
  unfoldable pub round : Phase × Client W S → Phase × Client W S
  round (entering, c) = enter c.conn c
  round (reading conn, c) = select_round conn c
  round (waiting conn, c) = read_round conn (read_at net conn c.machine) c
  round (pausing backoff, c) = pause_round backoff c
  round (ended, c) = (ended, c)

  unfoldable pub rounds : ℕ → Phase × Client W S → Phase × Client W S
  rounds zero l = l
  rounds (suc n) l = rounds n (round l)

  abbrev pub send_on : String → Option Conn → Act (Client W S) (Unit {0})
  send_on bytes none c = (err (text "not connected"), c)
  send_on bytes (some conn) c =
      let (r, m) = perform (net.write conn bytes) c.machine in (r, record c { machine = m })

  unfoldable pub send : String → Act (Client W S) (Unit {0})
  send bytes c = send_on bytes c.conn c

  abbrev pub close_conn : Option Conn → Client W S → Client W S
  close_conn none c = c
  close_conn (some conn) c = hang_up conn c

  -- The first `Close`; a second one panics.
  unfoldable pub close : Client W S → Client W S
  close c = close_conn c.conn (record c { stop_at = some c.machine.clock })
