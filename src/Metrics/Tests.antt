-- ===== src/Metrics/Tests.antt =====
-- Runs of the metrics of cmd/outline-ss-server/metrics.go.
use outline_ss_server.Prelude.{
  ℕ, ◌+◌, ◌-◌, ◌≡◌, refl, String, true, Option, none, some, List, [], ◌∷◌, arith,
}
use outline_ss_server.Net.Ip.{bytes_eq}
use outline_ss_server.Net.GoError.{new_connection_error, plain}
use outline_ss_server.IpInfo.{no_info}
use outline_ss_server.Salt.{is_server_salt}
use outline_ss_server.Replay.{add}
use outline_ss_server.Cipher.{
  Addr, v4, addr_eq, snapshot_for_client_ip, fill, matches_ip, mark_used_by_client_ip,
}
use outline_ss_server.Server.{udp}
use outline_ss_server.Tcp.State.{read_full}
use outline_ss_server.Tcp.Auth.{
  authenticate, judge, find_access_key, find_entry, remote_ip, check_replay,
}
use outline_ss_server.Tcp.Handler.{serve_one}
use outline_ss_server.Tcp.Samples.{svc, visit, world, good, reflected, client, session}
use outline_ss_server.Tunnel.{IpKey, ip_key_eq, find}
use outline_ss_server.Tunnel.Counts.{Holds, Counts}
use outline_ss_server.Tunnel.Entries.{Unique}
use outline_ss_server.Metrics.{client_proxy, OutlineMetrics, new_outline_metrics, to_ip_key}
use outline_ss_server.Metrics.Run.{
  MetricsCall, open_tcp, authenticated_tcp, closed_tcp, from_client, run_calls,
}
use outline_ss_server.Metrics.Totals.{total, key_of, sum_of, bytes_of, sent_bytes, closed_bytes}
use outline_ss_server.Metrics.Bytes.{run-data}
use outline_ss_server.Metrics.Visits.{Clock, observe, counted, is_client}
use outline_ss_server.Metrics.Packets.{bytes_read, report_calls, handle_loop-total}
use outline_ss_server.Udp.Loop.{UdpRead, datagram, socket_closed, read_failed, handle_loop}
use outline_ss_server.Udp.Samples.{handler, port_state, incoming}
use outline_ss_server.Metrics.Clients.{accepted-Holds, refused-Holds}

abbrev parse : String → Option Addr
parse host = some (v4 (203 ∷ 0 ∷ 113 ∷ 5 ∷ []))

-- A connection of 100 bytes, and a packet of 30 bytes under the same key and one under another.
abbrev calls : List (ℕ × MetricsCall)
calls =
    (1, open_tcp no_info)
    ∷ (2, authenticated_tcp client (2 ∷ []))
    ∷ (3, from_client no_info (2 ∷ []) "OK" 30 20)
    ∷ (4, from_client no_info (3 ∷ []) "ERR_CIPHER" 50 0)
    ∷ (
      9,
      closed_tcp no_info client (2 ∷ []) "OK"
          (record { client_proxy = 100; proxy_target = 60; target_proxy = 70; proxy_client = 90 })
          7,
    )
    ∷ []

after_calls : OutlineMetrics
after_calls = run_calls svc.text parse calls (new_outline_metrics none)

run-data_example :
    total (λ k. bytes_eq k (2 ∷ [])) client_proxy udp after_calls.data_bytes
    ≡ 30 + total (λ k. bytes_eq k (2 ∷ [])) client_proxy udp (new_outline_metrics none).data_bytes
unfolding after_calls sum_of key_of bytes_of sent_bytes closed_bytes bytes_eq
run-data_example =
    run-data svc.text parse client_proxy udp (λ k. bytes_eq k (2 ∷ [])) calls
      (new_outline_metrics none)

abbrev alice : IpKey
alice = record { ip = v4 (203 ∷ 0 ∷ 113 ∷ 5 ∷ []); access_key = 2 ∷ [] }

abbrev clock : Clock
clock = record { now = λ n. 1000 + n; measured = λ n. 3 }

-- One connection of `alice` is open.
abbrev one_open : OutlineMetrics
one_open = record (run_calls svc.text parse [] (new_outline_metrics none)) {
  tunnel_time = record {
    active_clients = (alice, record { info = no_info; conn_count = 1; start_time = 990 }) ∷ [];
    tunnel_time_per_key = [];
    tunnel_time_per_location = [];
  };
}

one_open-Holds : Holds alice 1 one_open.tunnel_time
unfolding Holds Counts Unique find ip_key_eq addr_eq
one_open-Holds = ((refl, omega arith), (refl, tt))

accepted-Holds_example :
    Holds alice 1
      (observe svc.text parse clock (serve_one svc visit (world good)).log one_open).tunnel_time
unfolding counted authenticate judge find_access_key read_full find_entry snapshot_for_client_ip
    fill matches_ip remote_ip is_server_salt check_replay add mark_used_by_client_ip
accepted-Holds_example =
    accepted-Holds svc visit parse alice clock one_open (world good) _ (2 ∷ []) session 1 refl
      one_open-Holds

-- The salt is one that the server made, under the key of `alice`, and comes from her address.
refused-Holds_example :
    Holds alice 0
      (observe svc.text parse clock
        (serve_one svc visit (world reflected)).log
        one_open).tunnel_time
unfolding counted is_client to_ip_key ip_key_eq addr_eq authenticate judge find_access_key read_full
    find_entry snapshot_for_client_ip fill matches_ip remote_ip is_server_salt check_replay
    mark_used_by_client_ip new_connection_error
refused-Holds_example =
    refused-Holds svc visit parse alice clock one_open (world reflected) _ (2 ∷ [])
      (new_connection_error "ERR_REPLAY_SERVER" "Replay detected" none) 1 refl one_open-Holds

-- A packet under a key, an error, a packet under no key, and the end.
abbrev reads : List UdpRead
reads =
    datagram (incoming (2 ∷ 0 ∷ 10 ∷ 11 ∷ 12 ∷ []))
    ∷ read_failed 0 (plain "connection refused")
    ∷ datagram (incoming (9 ∷ 0 ∷ []))
    ∷ socket_closed 60
    ∷ datagram (incoming (2 ∷ []))
    ∷ []

handle_loop-total_example :
    total
      (λ _. true)
      client_proxy
      udp
      (run_calls svc.text parse
        (report_calls (λ n. 50 - n) (handle_loop handler reads port_state).0)
        one_open).data_bytes
    ≡ 7 + total (λ _. true) client_proxy udp one_open.data_bytes
unfolding bytes_read
handle_loop-total_example =
    handle_loop-total handler svc.text parse (λ n. 50 - n) reads port_state one_open
