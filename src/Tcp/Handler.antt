-- ===== src/Tcp/Handler.antt =====
-- service/tcp.go: `Handle`, `handleConnection`, `proxyConnection` and `absorbProbe`.
use outline_ss_server.Prelude.{
  ℕ, ◌+◌, min, String, true, Option, none, some, List, ◌∷◌, ltb, if◌then◌else◌, length, drop,
}
use outline_ss_server.Net.GoError.{
  GoError, net_error, ConnectionError, new_connection_error, ensure_connection_error,
}
use outline_ss_server.Net.Text.{NetAddr}
use outline_ss_server.IpInfo.{IpInfo, get_ip_info_from_addr}
use outline_ss_server.Tcp.State.{
  ProxyMetrics, no_bytes, opened, authenticated, probe, closed, set_deadline, set_read_deadline,
  dialed, relayed, client_closed, World, done, M, ◌>>=◌, ◌>>◌, pure, gets, emit, drain, Service,
}
use outline_ss_server.Tcp.Auth.{Session, AuthResult, accepted, refused, authenticate}
use outline_ss_server.Tcp.Dial.{Dialed, connected, dial_failed}

-- What `socks.ReadAddr` makes of the decrypted stream: the target, or an error, and how many bytes
-- of the connection's input it took.
pub data Request : Type 0 where
  target : String → ℕ → Request
  bad_request : GoError → ℕ → Request

-- How the two copies of a relay end, and the bytes that they moved.
pub record RelayEnd : Type 0 where
  pub from_client : Option GoError
  pub from_target : Option GoError
  pub moved : ProxyMetrics

-- One accepted connection as the handler meets it.
pub record Visit (Key : Type 0) : Type 0 where
  pub remote : NetAddr
  pub now : ℕ
  pub ctx_deadline : Option ℕ
  pub read_request : Session Key → List ℕ → Request
  pub dial_stream : String → Dialed
  pub relay_end : RelayEnd

unfoldable pub drain_err_to_string : Option GoError → String
drain_err_to_string none = "eof"
drain_err_to_string (some (net_error true s)) = "timeout"
drain_err_to_string (some _) = "other"

unfoldable pub relay_error : RelayEnd → Option ConnectionError
relay_error r = elim r.from_client [
  | some e ↦
      some (new_connection_error "ERR_RELAY_CLIENT" "Failed to relay traffic from client" (some e))
  | none ↦ elim r.from_target [
    | some e ↦
        some
          (new_connection_error "ERR_RELAY_TARGET" "Failed to relay traffic from target" (some e))
    | none ↦ none
  ]
]

abbrev pub add_metrics : ProxyMetrics → ProxyMetrics → ProxyMetrics
add_metrics a b = record {
  client_proxy = a.client_proxy + b.client_proxy;
  proxy_target = a.proxy_target + b.proxy_target;
  target_proxy = a.target_proxy + b.target_proxy;
  proxy_client = a.proxy_client + b.proxy_client;
}

abbrev pub final_status : Option ConnectionError → String
final_status none = "OK"
final_status (some e) = e.status

module _ {Key : Type 0} where
  -- The relay's effect on the measured connections.
  unfoldable pub relay : RelayEnd → M Key (Unit {0})
  relay r w = (done tt, record w { metrics = add_metrics w.metrics r.moved; log = relayed ∷ w.log })

  -- After the dial.
  unfoldable pub after_dial : Visit Key → Dialed → M Key (Option ConnectionError)
  unfolding relay
  after_dial visit (dial_failed e) =
      pure (ensure_connection_error (some e) "ERR_CONNECT" "Failed to connect to target")
  after_dial visit (connected addr) = do relay visit.relay_end; pure (relay_error visit.relay_end)

  unfoldable pub proxy_connection : Visit Key → String → M Key (Option ConnectionError)
  unfolding after_dial
  proxy_connection visit tgt = do emit (dialed tgt); after_dial visit (visit.dial_stream tgt)

  unfoldable pub absorb_probe : Service Key → String → M Key (Unit {0})
  unfolding drain_err_to_string
  absorb_probe svc status = do
    drain_err ← drain
    bytes ← gets (λ w. w.metrics.client_proxy)
    emit (probe status (drain_err_to_string drain_err) svc.port bytes)

  -- `getProxyRequest`, through the measured connection.
  unfoldable pub get_proxy_request : Visit Key → Session Key → M Key Request
  get_proxy_request visit session w =
      let request = visit.read_request session w.conn.input in
      let taken : ℕ = elim request [ target t n ↦ n | bad_request e n ↦ n ] in
      (
        done request,
        record w {
          conn = record (w.conn) { input = drop taken w.conn.input };
          metrics = record (w.metrics) {
            client_proxy = w.metrics.client_proxy + min taken (length w.conn.input);
          };
        },
      )

  -- The deadlines that are set before the first read.
  unfoldable pub set_deadlines : Service Key → Visit Key → M Key (Unit {0})
  set_deadlines svc visit = elim visit.ctx_deadline [
    | none ↦ emit (set_read_deadline (some (visit.now + svc.read_timeout)))
    | some deadline ↦ (do
      emit (set_deadline deadline)
      emit (
          set_read_deadline (
            some (
              if ltb deadline (visit.now + svc.read_timeout)
              then deadline
              else visit.now + svc.read_timeout))))
  ]

  -- After the target address is read.
  unfoldable pub after_request :
      Visit Key → List ℕ → Request → M Key (List ℕ × Option ConnectionError)
  unfolding proxy_connection
  after_request visit id (bad_request e n) = do
    drain_err ← drain
    pure
        (id, some (new_connection_error "ERR_READ_ADDRESS" "Failed to get target address" (some e)))
  after_request visit id (target tgt n) = do err ← proxy_connection visit tgt; pure (id, err)

  -- After the authentication.
  unfoldable pub serve : Visit Key → List ℕ → Session Key → M Key (List ℕ × Option ConnectionError)
  unfolding get_proxy_request after_request
  serve visit id session = do
    emit (authenticated visit.remote id)
    request ← get_proxy_request visit session
    emit (set_read_deadline none)
    after_request visit id request

  unfoldable pub after_auth :
      Service Key → Visit Key → AuthResult Key → M Key (List ℕ × Option ConnectionError)
  unfolding serve absorb_probe
  after_auth svc visit (refused id err) = do absorb_probe svc err.status; pure (id, some err)
  after_auth svc visit (accepted id session) = serve visit id session

  unfoldable pub handle_connection :
      Service Key → Visit Key → M Key (List ℕ × Option ConnectionError)
  unfolding set_deadlines after_auth
  handle_connection svc visit = do
    set_deadlines svc visit
    auth ← authenticate svc visit.remote
    after_auth svc visit auth

  -- The byte counts start at 0 with each connection.
  unfoldable pub fresh_metrics : M Key (Unit {0})
  fresh_metrics w = (done tt, record w { metrics = no_bytes })

  -- After the connection is handled.
  unfoldable pub finish : IpInfo → Visit Key → List ℕ × Option ConnectionError → M Key (Unit {0})
  finish client_info visit (id, err) = do
    bytes ← gets (λ w. w.metrics)
    emit (closed client_info visit.remote id (final_status err) bytes)
    emit client_closed

  unfoldable pub handle : Service Key → Visit Key → M Key (Unit {0})
  unfolding handle_connection fresh_metrics finish
  handle svc visit = do
    let client_info = (get_ip_info_from_addr svc.text svc.ip2info visit.remote).0
    emit (opened client_info)
    fresh_metrics
    result ← handle_connection svc visit
    finish client_info visit result

  -- `StreamServe` recovers from a panic of the handler, and closes the connection in any case.
  unfoldable pub serve_one : Service Key → Visit Key → World Key → World Key
  unfolding handle
  serve_one svc visit w =
      let (r, w') = handle svc visit w in record w' { log = client_closed ∷ w'.log }
