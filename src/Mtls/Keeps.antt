-- ===== src/Mtls/Keeps.antt =====
-- What the rounds of internal/adapters/mtls/client.go leave of the state behind the callback: only a
-- command that was read changes it.
use worldland_sdk.Base.{
  ℕ, ◌+◌, ◌≡◌, refl, sym, subst, ◌∙◌, String, true, is_some, Option, none, some, Bool-cases, inl,
  inr,
}
use worldland_sdk.Go.Errors.{Result, ok, err}
use worldland_sdk.Go.Outcome.{IfOk}
use worldland_sdk.Go.Context.{closed_by}
use worldland_sdk.Go.Machine.{Machine, perform, sleep}
use worldland_sdk.Node.{Command, CommandAck}
use worldland_sdk.Mtls.{
  Conn, Network, Client, Phase, entering, reading, pausing, ended, round, enter, connect,
  pause_round, reconnected, dialled, shaken, send, send_on, waiting, read_at, is_stopped,
}
use worldland_sdk.Mtls.Rounds.{ReadOnce, waits, broken, unreadable, answered, round-ReadOnce}

module _ {W S F : Type 0} (net : Network W F)
    (on_command : Option (Command F → S × Machine W → CommandAck F × (S × Machine W)))
    (bytes : String) where
  sent-app :
      (o : Option Conn) (c : Client W S) → (send_on net on_command none bytes o c).1.app ≡ c.app
  sent-app none c = refl
  sent-app (some conn) c = refl

  -- A message that is sent changes nothing behind the callback.
  pub send-app : (c : Client W S) → (send net on_command none bytes c).1.app ≡ c.app
  unfolding send
  send-app c = sent-app c.conn c

module _ {W S F : Type 0} (net : Network W F)
    (handle : Command F → S × Machine W → CommandAck F × (S × Machine W)) where
  shaken-app :
      (conn : Conn) (r : Result (Unit {0})) (c : Client W S)
      → (shaken net (some handle) none conn r c).1.app ≡ c.app
  shaken-app conn (ok done) c = refl
  shaken-app conn (err e) c = refl

  dialled-app :
      (r : Result Conn) (c : Client W S) → (dialled net (some handle) none r c).1.app ≡ c.app
  dialled-app (err e) c = refl
  dialled-app (ok conn) c =
      let (r, m) = perform (net.handshake conn) c.machine in
      shaken-app conn r (record c { machine = m })

  pub connect-app : (c : Client W S) → (connect net (some handle) none c).1.app ≡ c.app
  unfolding connect
  connect-app c =
      let (r, m) = perform net.dial c.machine in dialled-app r (record c { machine = m })

  -- A client that has connected to the hub has a connection, and is otherwise as it was.
  pub record Connected (c : Client W S) (done : Unit {0}) (c' : Client W S) : Type 0 where
    pub connected : is_some c'.conn ≡ true
    pub same_app : c'.app ≡ c.app
    pub same_stop : c'.stop_at ≡ c.stop_at

  shaken-Connected :
      (conn : Conn) (r : Result (Unit {0})) (c c0 : Client W S)
      → c.app ≡ c0.app
      → c.stop_at ≡ c0.stop_at
      → IfOk (Connected c0) (shaken net (some handle) none conn r c)
  shaken-Connected conn (ok done) c c0 e e' = record {
    connected = refl;
    same_app = e;
    same_stop = e';
  }
  shaken-Connected conn (err x) c c0 e e' = tt

  dialled-Connected :
      (r : Result Conn) (c c0 : Client W S)
      → c.app ≡ c0.app
      → c.stop_at ≡ c0.stop_at
      → IfOk (Connected c0) (dialled net (some handle) none r c)
  dialled-Connected (err x) c c0 e e' = tt
  dialled-Connected (ok conn) c c0 e e' =
      let (r, m) = perform (net.handshake conn) c.machine in
      shaken-Connected conn r (record c { machine = m }) c0 e e'

  pub connect-Connected : (c : Client W S) → IfOk (Connected c) (connect net (some handle) none c)
  unfolding connect
  connect-Connected c =
      let (r, m) = perform net.dial c.machine in
      dialled-Connected r (record c { machine = m }) c refl refl

  reconnected-app :
      (backoff : ℕ) (r : Result (Unit {0})) (c : Client W S)
      → (reconnected net (some handle) none backoff (r, c)).1.app ≡ c.app
  reconnected-app backoff (ok done) c = refl
  reconnected-app backoff (err e) c = refl

  enter-app : (o : Option Conn) (c : Client W S) → (enter net (some handle) none o c).1.app ≡ c.app
  enter-app none c = refl
  enter-app (some conn) c = refl

  pause_round-app :
      (backoff : ℕ) (c : Client W S) → (pause_round net (some handle) none backoff c).1.app ≡ c.app
  pause_round-app backoff c = elim (Bool-cases (closed_by c.stop_at (c.machine.clock + backoff))) [
    | inl e ↦ rw e refl
    | inr e ↦
        let tried =
          connect net (some handle) none (record c { machine = sleep backoff c.machine }) in
        rw e (reconnected-app backoff tried.0 tried.1 ∙ connect-app _)
  ]

  module _ (Q : S → Type 0) where
    -- What every command that is read keeps, a round keeps.
    abbrev pub CommandKeeps : Phase × Client W S → Type 0
    CommandKeeps l =
        (conn : Conn) (bytes : String) (m : Machine W) (cmd : Command F)
        → l.0 ≡ waiting conn
        → read_at net conn l.1.machine ≡ some (ok bytes, m)
        → net.unmarshal bytes ≡ some cmd
        → Q (handle cmd (l.1.app, m)).1.0

    read-keeps :
        {conn : Conn} {c : Client W S} {l : Phase × Client W S}
        → ReadOnce net (some handle) none conn c l
        → CommandKeeps (waiting conn, c)
        → Q c.app
        → Q l.1.app
    read-keeps (waits silent e) h q = rw e q
    read-keeps (broken x m said e) h q = rw e q
    read-keeps (unreadable bytes m said junk e) h q = rw e q
    read-keeps (answered bytes m cmd said read e) h q = rw e (h _ bytes m cmd refl said read)

    pub round-keeps :
        (l : Phase × Client W S)
        → CommandKeeps l
        → Q l.1.app
        → Q (round net (some handle) none l).1.app
    unfolding round
    round-keeps (entering, c) h q = subst Q (sym (enter-app c.conn c)) q
    round-keeps (reading conn, c) h q = elim (Bool-cases (is_stopped c)) [
      | inl e ↦ rw e q
      | inr e ↦ rw e q
    ]
    round-keeps (waiting conn, c) h q =
        read-keeps (round-ReadOnce net (some handle) none conn c) h q
    round-keeps (pausing backoff, c) h q = subst Q (sym (pause_round-app backoff c)) q
    round-keeps (ended, c) h q = q
