-- ===== src/Tcp/Race.antt =====
-- service/tcp.go: the authenticators of the connections of one port, which run at the same time. What
-- they share is the cipher list and the replay cache; each method of these holds its mutex, so an
-- authenticator is cut into steps between which the others may act.
pub mod Alone
pub mod Shared
pub mod Kept
pub mod Window
use outline_ss_server.Prelude.{
  ℕ, zero, suc, ◌+◌, Bool, true, false, Option, none, some, List, [], ◌∷◌, ◌++◌, if◌then◌else◌, not,
  set, take,
}
use outline_ss_server.Net.GoError.{wrapped}
use outline_ss_server.Net.Text.{NetAddr}
use outline_ss_server.Cipher
use outline_ss_server.Cipher.{CipherList, CipherEntry, snapshot_for_client_ip}
use outline_ss_server.Salt.{is_server_salt}
use outline_ss_server.Replay.{ReplayCache}
use outline_ss_server.Tcp.State.{
  Conn, ProxyMetrics, no_bytes, Event, World, Outcome, done, panic, Service, Read, bytes, short,
  read_full,
}
use outline_ss_server.Tcp.Auth.{
  KeySearch, missed, hit, Session, AuthResult, accepted, remote_ip, find_entry, use_entry, judge,
  bytes_for_key_finding,
}

-- Where an authenticator stands: before the snapshot, before the read, before the trial decryption,
-- before the mark of the found entry, before the replay check, or at its end.
pub data Stage (Key : Type 0) : Type 0 where
  starting : Stage Key
  reading : List (Option ℕ) → Stage Key
  searching : List (Option ℕ) → Read → Stage Key
  using : List ℕ → Option ℕ → Stage Key
  judging : KeySearch → Stage Key
  finished : Outcome (AuthResult Key) → Stage Key

-- What follows a result; a panic ends the authenticator.
abbrev pub resume : {Key A : Type 0} → (A → Stage Key) → Outcome A → Stage Key
resume f (done a) = f a
resume f panic = finished panic

-- A connection with its own state.
pub record Handler (Key : Type 0) : Type 0 where
  pub remote : NetAddr
  pub conn : Conn
  pub metrics : ProxyMetrics
  pub log : List Event
  pub stage : Stage Key

-- What the connections of a port share, and the connections.
pub record Port (Key : Type 0) : Type 0 where
  pub ciphers : CipherList Key
  pub replay : Option ReplayCache
  pub handlers : List (Handler Key)

-- The listener accepts a connection, a configuration gives the port another list of ciphers, or the
-- authenticator with a number makes its next step.
pub data Move : Type 0 where
  arrive : NetAddr → Conn → Move
  reload : List ℕ → Move
  go : ℕ → Move

unfoldable pub at_index {ℓ} : {A : Type ℓ} → List A → ℕ → Option A
at_index [] i = none
at_index (x ∷ xs) zero = some x
at_index (x ∷ xs) (suc i) = at_index xs i

module _ {Key : Type 0} where
  -- A connection's view of the port.
  abbrev pub view : Port Key → Handler Key → World Key
  view p h = record {
    ciphers = p.ciphers;
    replay = p.replay;
    conn = h.conn;
    metrics = h.metrics;
    log = h.log;
  }

  -- The port after a step of the i-th connection.
  abbrev pub put_back : Port Key → ℕ → Handler Key → World Key × Stage Key → Port Key
  put_back p i h (w, stage) = record {
    ciphers = w.ciphers;
    replay = w.replay;
    handlers = set p.handlers i (record {
      remote = h.remote;
      conn = w.conn;
      metrics = w.metrics;
      log = w.log;
      stage = stage;
    });
  }

module _ {Key : Type 0} (svc : Service Key) where
  -- The next step of an authenticator.
  unfoldable pub run_stage : NetAddr → Stage Key → World Key → World Key × Stage Key
  run_stage remote starting w =
      (w, reading (snapshot_for_client_ip w.ciphers (remote_ip svc.parse_addr_port remote)))
  run_stage remote (reading ciphers) w =
      let (read, w') = read_full bytes_for_key_finding w in (w', resume (searching ciphers) read)
  run_stage remote (searching ciphers (short err)) w =
      (w, judging (missed (wrapped "reading header failed" err)))
  run_stage remote (searching ciphers (bytes first)) w =
      (w, resume (using first) (find_entry svc.shadowsocks w.ciphers.store first ciphers))
  run_stage remote (using first entry) w =
      let (search, w') =
        use_entry svc.shadowsocks (remote_ip svc.parse_addr_port remote) w.ciphers.store first entry
          w in
      (w', resume judging search)
  run_stage remote (judging search) w =
      let (result, w') = judge svc search w in (w', finished result)
  run_stage remote (finished result) w = (w, finished result)

  abbrev pub go_on : Port Key → ℕ → Option (Handler Key) → Port Key
  go_on p i none = p
  go_on p i (some h) = put_back p i h (run_stage h.remote h.stage (view p h))

  unfoldable pub move : Port Key → Move → Port Key
  move p (arrive remote conn) = record p {
    handlers =
        p.handlers
        ++ (record { remote = remote; conn = conn; metrics = no_bytes; log = []; stage = starting }
            ∷ []);
  }
  move p (reload elements) = record p { ciphers = Cipher.update p.ciphers elements }
  move p (go i) = go_on p i (at_index p.handlers i)

  -- An interleaving.
  unfoldable pub run_moves : Port Key → List Move → Port Key
  run_moves p [] = p
  run_moves p (m ∷ ms) = run_moves (move p m) ms

  -- The key ID and the salt under which a step accepts a connection.
  abbrev pub accepted_by : Stage Key → Stage Key → Option (List ℕ × List ℕ)
  accepted_by (judging search) (finished (done (accepted id session))) =
      some (id, take (svc.shadowsocks.salt_size session.key) session.first_bytes)
  accepted_by _ _ = none

  abbrev pub acceptance_of : Port Key → Option (Handler Key) → Option (List ℕ × List ℕ)
  acceptance_of p none = none
  acceptance_of p (some h) = accepted_by h.stage (run_stage h.remote h.stage (view p h)).1

  unfoldable pub acceptance : Port Key → ℕ → Option (List ℕ × List ℕ)
  acceptance p i = acceptance_of p (at_index p.handlers i)

  -- Whether the next step calls `Add` of the replay cache: the check looks for the mark of the server
  -- first, and asks the cache only about salts without it.
  abbrev pub asks : (ℕ → CipherEntry Key) → Stage Key → Bool
  asks store (judging (hit e first salt)) =
      not (is_server_salt svc.hashes (store e).salt_generator salt)
  asks store _ = false

  abbrev pub asked_by : (ℕ → CipherEntry Key) → Option (Handler Key) → ℕ
  asked_by store none = 0
  asked_by store (some h) = if asks store h.stage then 1 else 0

  abbrev pub asked_in : Port Key → Move → ℕ
  asked_in p (arrive remote conn) = 0
  asked_in p (reload elements) = 0
  asked_in p (go i) = asked_by p.ciphers.store (at_index p.handlers i)

  -- How many calls of `Add` an interleaving has.
  unfoldable pub replay_checks : Port Key → List Move → ℕ
  replay_checks p [] = 0
  replay_checks p (m ∷ ms) = asked_in p m + replay_checks (move p m) ms
