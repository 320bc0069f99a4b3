-- ===== src/Metrics.antt =====
-- cmd/outline-ss-server/metrics.go: what the server reports to Prometheus. A counter or a histogram is
-- the list of the calls of `Add`, `Inc` or `Observe`, newest first, with their labels; a gauge is the
-- value that was set last. Byte counts are not negative, and times are in the clock's unit.
pub mod Run
pub mod Totals
pub mod Bytes
pub mod Visits
pub mod Clients
pub mod Packets
mod Tests
use outline_ss_server.Prelude.{
  ℕ, zero, suc, ◌+◌, String, Bool, Option, none, some, List, [], ◌∷◌, ltb, ◌==◌, if◌then◌else◌,
}
use outline_ss_server.Net.Text.{NetAddr, NetText}
use outline_ss_server.IpInfo.{IpInfo, IpInfoMap}
use outline_ss_server.Cipher.{Addr}
use outline_ss_server.Server.{Proto, tcp, udp}
use outline_ss_server.Tcp.State.{ProxyMetrics}
use outline_ss_server.Tunnel.{
  IpKey, TunnelTimeCollector, new_tunnel_time_collector, start_connection, stop_connection, collect,
}

-- The label "dir": "c>p", "p>t", "p<t", "c<p".
pub data Dir : Type 0 where
  client_proxy : Dir
  proxy_target : Dir
  target_proxy : Dir
  proxy_client : Dir

-- The labels "location" and "asn".
pub record Location : Type 0 where
  pub country : String
  pub asn : Option ℕ

pub record OutlineMetrics : Type 0 where
  pub ip_info_map : Option IpInfoMap
  pub tunnel_time : TunnelTimeCollector
  pub build_info : List String
  pub access_keys : ℕ
  pub ports : ℕ
  pub data_bytes : List ((Dir × Proto × List ℕ) × ℕ)
  pub data_bytes_per_location : List ((Dir × Proto × Location) × ℕ)
  pub time_to_cipher : List ((Proto × Bool) × ℕ)
  pub tcp_probes : List ((ℕ × String × String) × ℕ)
  pub tcp_open_connections : List Location
  pub tcp_closed_connections : List (Location × String × List ℕ)
  pub tcp_connection_duration : List (String × ℕ)
  pub udp_packets_from_client : List (Location × String)
  pub udp_added_nat_entries : ℕ
  pub udp_removed_nat_entries : ℕ

unfoldable pub new_outline_metrics : Option IpInfoMap → OutlineMetrics
new_outline_metrics ip2info = record {
  ip_info_map = ip2info;
  tunnel_time = new_tunnel_time_collector;
  build_info = [];
  access_keys = 0;
  ports = 0;
  data_bytes = [];
  data_bytes_per_location = [];
  time_to_cipher = [];
  tcp_probes = [];
  tcp_open_connections = [];
  tcp_closed_connections = [];
  tcp_connection_duration = [];
  udp_packets_from_client = [];
  udp_added_nat_entries = 0;
  udp_removed_nat_entries = 0;
}

-- The label is empty for no ASN.
unfoldable pub asn_label : ℕ → Option ℕ
asn_label asn = if asn == 0 then none else some asn

unfoldable pub location_of : IpInfo → Location
unfolding asn_label
location_of info = record { country = info.country_code; asn = asn_label info.asn }

unfoldable pub add_if_non_zero {ℓ} : {L : Type ℓ} → ℕ → List (L × ℕ) → L → List (L × ℕ)
add_if_non_zero value vec labels = if ltb 0 value then (labels, value) ∷ vec else vec

-- The address's text, its host, and the IP that is read from it; `none` is an error.
unfoldable pub to_ip_key : NetText → (String → Option Addr) → NetAddr → List ℕ → Option IpKey
to_ip_key text parse_addr addr access_key = elim (text.split_host (text.addr_string addr)) [
  | none ↦ none
  | some host ↦ elim (parse_addr host) [
    | none ↦ none
    | some ip ↦ some (record { ip = ip; access_key = access_key })
  ]
]

unfoldable pub set_build_info : String → OutlineMetrics → OutlineMetrics
set_build_info version m = record m { build_info = version ∷ m.build_info }

unfoldable pub set_num_access_keys : ℕ → ℕ → OutlineMetrics → OutlineMetrics
set_num_access_keys num_keys ports m = record m { access_keys = num_keys; ports = ports }

unfoldable pub add_open_tcp_connection : IpInfo → OutlineMetrics → OutlineMetrics
add_open_tcp_connection info m = record m {
  tcp_open_connections = location_of info ∷ m.tcp_open_connections;
}

-- A client whose address gives no key is not tracked.
unfoldable pub track : Option IpKey → ℕ → OutlineMetrics → OutlineMetrics
track none now m = m
track (some key) now m = record m {
  tunnel_time = start_connection m.ip_info_map key now m.tunnel_time;
}

unfoldable pub untrack : Option IpKey → ℕ → OutlineMetrics → OutlineMetrics
untrack none now m = m
untrack (some key) now m = record m { tunnel_time = stop_connection key now m.tunnel_time }

-- The two counters of transferred bytes.
unfoldable pub add_bytes : Proto → Dir → ℕ → List ℕ → IpInfo → OutlineMetrics → OutlineMetrics
unfolding add_if_non_zero location_of
add_bytes proto dir value access_key info m = record m {
  data_bytes = add_if_non_zero value m.data_bytes (dir, proto, access_key);
  data_bytes_per_location =
      add_if_non_zero value m.data_bytes_per_location (dir, proto, location_of info);
}

unfoldable pub add_tcp_probe : String → String → ℕ → ℕ → OutlineMetrics → OutlineMetrics
add_tcp_probe status drain_result port client_proxy_bytes m = record m {
  tcp_probes = ((port, status, drain_result), client_proxy_bytes) ∷ m.tcp_probes;
}

-- `AddTCPCipherSearch` and `AddUDPCipherSearch`.
unfoldable pub add_cipher_search : Proto → Bool → ℕ → OutlineMetrics → OutlineMetrics
add_cipher_search proto found time_to_cipher m = record m {
  time_to_cipher = ((proto, found), time_to_cipher) ∷ m.time_to_cipher;
}

unfoldable pub add_udp_packet_from_client :
    IpInfo → List ℕ → String → ℕ → ℕ → OutlineMetrics → OutlineMetrics
unfolding add_bytes location_of
add_udp_packet_from_client info access_key status client_proxy_bytes proxy_target_bytes m =
    add_bytes udp proxy_target proxy_target_bytes access_key info (
      add_bytes udp client_proxy client_proxy_bytes access_key info (record m {
        udp_packets_from_client = (location_of info, status) ∷ m.udp_packets_from_client;
      }))

-- The status is not reported.
unfoldable pub add_udp_packet_from_target :
    IpInfo → List ℕ → String → ℕ → ℕ → OutlineMetrics → OutlineMetrics
unfolding add_bytes
add_udp_packet_from_target info access_key status target_proxy_bytes proxy_client_bytes m =
    add_bytes udp proxy_client proxy_client_bytes access_key info
      (add_bytes udp target_proxy target_proxy_bytes access_key info m)

-- The text functions of the packages net and netip that a client's key goes through.
module _ (text : NetText) (parse_addr : String → Option Addr) where
  unfoldable pub add_authenticated_tcp_connection :
      NetAddr → List ℕ → ℕ → OutlineMetrics → OutlineMetrics
  unfolding to_ip_key track
  add_authenticated_tcp_connection addr access_key now m =
      track (to_ip_key text parse_addr addr access_key) now m

  unfoldable pub add_closed_tcp_connection :
      IpInfo → NetAddr → List ℕ → String → ProxyMetrics → ℕ → ℕ → OutlineMetrics → OutlineMetrics
  unfolding to_ip_key untrack add_bytes location_of
  add_closed_tcp_connection info addr access_key status bytes duration now m =
      untrack (to_ip_key text parse_addr addr access_key) now (
        add_bytes tcp proxy_client bytes.proxy_client access_key info (
          add_bytes tcp target_proxy bytes.target_proxy access_key info (
            add_bytes tcp proxy_target bytes.proxy_target access_key info (
              add_bytes tcp client_proxy bytes.client_proxy access_key info (record m {
                tcp_closed_connections =
                    (location_of info, status, access_key) ∷ m.tcp_closed_connections;
                tcp_connection_duration = (status, duration) ∷ m.tcp_connection_duration;
              })))))

  unfoldable pub add_udp_nat_entry : NetAddr → List ℕ → ℕ → OutlineMetrics → OutlineMetrics
  unfolding to_ip_key track
  add_udp_nat_entry addr access_key now m =
      track (to_ip_key text parse_addr addr access_key) now
        (record m { udp_added_nat_entries = m.udp_added_nat_entries + 1 })

  unfoldable pub remove_udp_nat_entry : NetAddr → List ℕ → ℕ → OutlineMetrics → OutlineMetrics
  unfolding to_ip_key untrack
  remove_udp_nat_entry addr access_key now m =
      untrack (to_ip_key text parse_addr addr access_key) now
        (record m { udp_removed_nat_entries = m.udp_removed_nat_entries + 1 })
