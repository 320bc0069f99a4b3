-- ===== src/Metrics/Run.antt =====
-- The calls that the metrics of cmd/outline-ss-server/metrics.go get from the services.
use outline_ss_server.Prelude.{ℕ, String, Bool, Option, List, [], ◌∷◌}
use outline_ss_server.Net.Text.{NetAddr, NetText}
use outline_ss_server.IpInfo.{IpInfo}
use outline_ss_server.Cipher.{Addr}
use outline_ss_server.Server.{Proto}
use outline_ss_server.Tcp.State.{ProxyMetrics}
use outline_ss_server.Tunnel.{collect}
use outline_ss_server.Metrics.{
  OutlineMetrics, set_num_access_keys, add_open_tcp_connection, add_authenticated_tcp_connection,
  add_closed_tcp_connection, add_udp_packet_from_client, add_udp_packet_from_target,
  add_udp_nat_entry, remove_udp_nat_entry, add_tcp_probe, add_cipher_search,
}

pub data MetricsCall : Type 0 where
  num_access_keys : ℕ → ℕ → MetricsCall
  open_tcp : IpInfo → MetricsCall
  authenticated_tcp : NetAddr → List ℕ → MetricsCall
  closed_tcp : IpInfo → NetAddr → List ℕ → String → ProxyMetrics → ℕ → MetricsCall
  from_client : IpInfo → List ℕ → String → ℕ → ℕ → MetricsCall
  from_target : IpInfo → List ℕ → String → ℕ → ℕ → MetricsCall
  nat_added : NetAddr → List ℕ → MetricsCall
  nat_removed : NetAddr → List ℕ → MetricsCall
  tcp_probe : String → String → ℕ → ℕ → MetricsCall
  searched : Proto → Bool → ℕ → MetricsCall
  collected : MetricsCall

module _ (text : NetText) (parse_addr : String → Option Addr) where
  unfoldable pub on_call : ℕ → MetricsCall → OutlineMetrics → OutlineMetrics
  unfolding set_num_access_keys add_open_tcp_connection add_authenticated_tcp_connection
      add_closed_tcp_connection add_udp_packet_from_client add_udp_packet_from_target
      add_udp_nat_entry remove_udp_nat_entry add_tcp_probe add_cipher_search
  on_call now (num_access_keys keys ports) m = set_num_access_keys keys ports m
  on_call now (open_tcp info) m = add_open_tcp_connection info m
  on_call now (authenticated_tcp addr key) m =
      add_authenticated_tcp_connection text parse_addr addr key now m
  on_call now (closed_tcp info addr key status bytes duration) m =
      add_closed_tcp_connection text parse_addr info addr key status bytes duration now m
  on_call now (from_client info key status cp pt) m =
      add_udp_packet_from_client info key status cp pt m
  on_call now (from_target info key status tp pc) m =
      add_udp_packet_from_target info key status tp pc m
  on_call now (nat_added addr key) m = add_udp_nat_entry text parse_addr addr key now m
  on_call now (nat_removed addr key) m = remove_udp_nat_entry text parse_addr addr key now m
  on_call now (tcp_probe status result port n) m = add_tcp_probe status result port n m
  on_call now (searched proto found time) m = add_cipher_search proto found time m
  on_call now collected m = record m { tunnel_time = collect now m.tunnel_time }

  -- The calls with their times, in their order.
  unfoldable pub run_calls : List (ℕ × MetricsCall) → OutlineMetrics → OutlineMetrics
  unfolding on_call
  run_calls [] m = m
  run_calls ((now, c) ∷ cs) m = run_calls cs (on_call now c m)
