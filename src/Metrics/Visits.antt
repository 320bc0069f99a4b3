-- ===== src/Metrics/Visits.antt =====
-- How the metrics of cmd/outline-ss-server/metrics.go see the connections of service/tcp.go: the clients
-- that they take for connected.
use outline_ss_server.Prelude.{
  ℕ, ◌+◌, ◌-◌, inl, inr, String, Bool, false, Option, none, some, List, [], ◌∷◌, if◌then◌else◌,
  Option-cases, length,
}
use outline_ss_server.Net.Text.{NetAddr, NetText}
use outline_ss_server.Cipher.{Addr}
use outline_ss_server.Server.{tcp}
use outline_ss_server.Tcp.State.{
  Event, opened, authenticated, probe, closed, set_deadline, set_read_deadline, drained,
  cipher_search, dialed, relayed, client_closed,
}
use outline_ss_server.Tunnel.{IpKey, ip_key_eq}
use outline_ss_server.Tunnel.Counts.{Holds, start-Holds, stop-Holds}
use outline_ss_server.Metrics.{
  OutlineMetrics, to_ip_key, track, untrack, add_open_tcp_connection,
  add_authenticated_tcp_connection, add_closed_tcp_connection, add_tcp_probe, add_cipher_search,
  add_bytes,
}
use outline_ss_server.Metrics.Run.{
  MetricsCall, open_tcp, authenticated_tcp, closed_tcp, tcp_probe, searched, on_call,
}

-- The times of the events of a log by their position, and the durations that are measured with them.
pub record Clock : Type 0 where
  pub now : ℕ → ℕ
  pub measured : ℕ → ℕ

-- The call of the metrics that an event is.
unfoldable pub call_of : ℕ → Event → Option MetricsCall
call_of time (opened info) = some (open_tcp info)
call_of time (cipher_search b) = some (searched tcp b time)
call_of time (authenticated addr id) = some (authenticated_tcp addr id)
call_of time (probe status result port n) = some (tcp_probe status result port n)
call_of time (closed info addr id status bytes) = some (closed_tcp info addr id status bytes time)
call_of time _ = none

module _ (text : NetText) (parse_addr : String → Option Addr) where
  -- The metrics after the events of a log, which stand newest first.
  unfoldable pub observe : Clock → List Event → OutlineMetrics → OutlineMetrics
  unfolding call_of
  observe clock [] m = m
  observe clock (e ∷ es) m =
      let before = observe clock es m in
      elim (call_of (clock.measured (length es)) e) [
        | none ↦ before
        | some c ↦ on_call text parse_addr (clock.now (length es)) c before
      ]

  unfoldable pub is_client : IpKey → NetAddr → List ℕ → Bool
  is_client key addr id = elim (to_ip_key text parse_addr addr id) [
    | none ↦ false
    | some k ↦ ip_key_eq k key
  ]

  -- The connections that the metrics count for a client after the events of a log.
  unfoldable pub counted : IpKey → List Event → ℕ → ℕ
  unfolding is_client
  counted key [] n = n
  counted key (authenticated addr id ∷ es) n =
      let before = counted key es n in if is_client key addr id then before + 1 else before
  counted key (closed info addr id status bytes ∷ es) n =
      let before = counted key es n in if is_client key addr id then before - 1 else before
  counted key (e ∷ es) n = counted key es n

  track-Holds :
      (key : IpKey) (addr : NetAddr) (id : List ℕ) (t n : ℕ) (m : OutlineMetrics)
      → Holds key n m.tunnel_time
      → Holds key
          (if is_client key addr id then n + 1 else n)
          (track (to_ip_key text parse_addr addr id) t m).tunnel_time
  unfolding track is_client
  track-Holds key addr id t n m h = elim (Option-cases (to_ip_key text parse_addr addr id)) [
    | inl e ↦ rw (e, is_client) h
    | inr (k, e) ↦ rw (e, is_client) (start-Holds m.ip_info_map k key t n m.tunnel_time h)
  ]

  untrack-Holds :
      (key : IpKey) (addr : NetAddr) (id : List ℕ) (t n : ℕ) (m : OutlineMetrics)
      → Holds key n m.tunnel_time
      → Holds key
          (if is_client key addr id then n - 1 else n)
          (untrack (to_ip_key text parse_addr addr id) t m).tunnel_time
  unfolding untrack is_client
  untrack-Holds key addr id t n m h = elim (Option-cases (to_ip_key text parse_addr addr id)) [
    | inl e ↦ rw (e, is_client) h
    | inr (k, e) ↦ rw (e, is_client) (stop-Holds k key t n m.tunnel_time h)
  ]

  -- After the events of a log, the collector has a client in its map exactly if connections are counted
  -- for it, with their number: one more for each that is authenticated, and one less for each that is
  -- closed under the client's address and a key's ID.
  pub observe-Holds :
      (key : IpKey) (clock : Clock) (es : List Event) (n : ℕ) (m : OutlineMetrics)
      → Holds key n m.tunnel_time
      → Holds key (counted key es n) (observe clock es m).tunnel_time
  unfolding observe counted call_of on_call add_open_tcp_connection add_authenticated_tcp_connection
      add_closed_tcp_connection add_tcp_probe add_cipher_search add_bytes
  observe-Holds key clock [] n m h = h
  observe-Holds key clock (opened info ∷ es) n m h = observe-Holds key clock es n m h
  observe-Holds key clock (cipher_search b ∷ es) n m h = observe-Holds key clock es n m h
  observe-Holds key clock (authenticated addr id ∷ es) n m h =
      track-Holds key addr id _ _ _ (observe-Holds key clock es n m h)
  observe-Holds key clock (probe status result port k ∷ es) n m h = observe-Holds key clock es n m h
  observe-Holds key clock (closed info addr id status bytes ∷ es) n m h =
      untrack-Holds key addr id _ _ _ (observe-Holds key clock es n m h)
  observe-Holds key clock (set_deadline t ∷ es) n m h = observe-Holds key clock es n m h
  observe-Holds key clock (set_read_deadline t ∷ es) n m h = observe-Holds key clock es n m h
  observe-Holds key clock (drained ∷ es) n m h = observe-Holds key clock es n m h
  observe-Holds key clock (dialed t ∷ es) n m h = observe-Holds key clock es n m h
  observe-Holds key clock (relayed ∷ es) n m h = observe-Holds key clock es n m h
  observe-Holds key clock (client_closed ∷ es) n m h = observe-Holds key clock es n m h
