-- ===== src/Metrics/Packets.antt =====
-- How the metrics of cmd/outline-ss-server/metrics.go count the packets that service/udp.go reads.
use outline_ss_server.Prelude.{
  ℕ, ◌+◌, ◌≡◌, refl, ap, ◌∙◌, String, true, Option, List, [], ◌∷◌, length,
}
use outline_ss_server.Net.Text.{NetText}
use outline_ss_server.Cipher.{Addr}
use outline_ss_server.Server.{udp}
use outline_ss_server.Udp.Packet.{
  PacketHandler, UdpState, Incoming, Report, Verdict, admitted, turned_away, crashed, conclude,
  handle_packet,
}
use outline_ss_server.Udp.Loop.{UdpRead, datagram, socket_closed, read_failed, handle_loop}
use outline_ss_server.Metrics.{client_proxy, OutlineMetrics}
use outline_ss_server.Metrics.Run.{MetricsCall, from_client, run_calls}
use outline_ss_server.Metrics.Totals.{total, key_of, sum_of, bytes_of, sent_bytes}
use outline_ss_server.Metrics.Bytes.{run-data}

-- The calls of `AddUDPPacketFromClient` that some reports are, at times by their distance from the last.
unfoldable pub report_calls : (ℕ → ℕ) → List Report → List (ℕ × MetricsCall)
report_calls clock [] = []
report_calls clock (r ∷ rs) =
    (
      clock (length rs),
      from_client r.client_info r.key_id r.status r.client_proxy_bytes r.proxy_target_bytes,
    )
    ∷ report_calls clock rs

-- The bytes that are read from clients before their socket is closed.
unfoldable pub bytes_read : List UdpRead → ℕ
bytes_read [] = 0
bytes_read (socket_closed now ∷ rest) = 0
bytes_read (read_failed n e ∷ rest) = n + bytes_read rest
bytes_read (datagram p ∷ rest) = length p.packet + bytes_read rest

module _ {Key : Type 0} (h : PacketHandler Key) where
  concluded_bytes :
      (p : Incoming) (v : Verdict Key) (s : UdpState Key)
      → (conclude h p v s).0.client_proxy_bytes ≡ length p.packet
  unfolding conclude
  concluded_bytes p (crashed info) s = refl
  concluded_bytes p (turned_away opened info id err) s = refl
  concluded_bytes p (admitted info id entry payload addr) s = refl

  reported_bytes :
      (clock : ℕ → ℕ) (rs : List UdpRead) (s : UdpState Key)
      → sum_of key_of (λ _. true) client_proxy udp (report_calls clock (handle_loop h rs s).0)
        ≡ bytes_read rs
  unfolding handle_loop bytes_read report_calls sum_of bytes_of sent_bytes handle_packet
  reported_bytes clock [] s = refl
  reported_bytes clock (socket_closed now ∷ rest) s = refl
  reported_bytes clock (read_failed n e ∷ rest) s = ap (λ x. n + x) (reported_bytes clock rest s)
  reported_bytes clock (datagram p ∷ rest) s =
      let rec = reported_bytes clock rest (handle_packet h p s).1 in
      let same : (handle_packet h p s).0.client_proxy_bytes ≡ length p.packet =
        concluded_bytes p _ _ in
      ap (λ x. (handle_packet h p s).0.client_proxy_bytes + x) rec
      ∙ ap (λ x. x + bytes_read rest) same

  -- Every byte that the service reads from clients, until their socket is closed, is counted once as
  -- sent from a client over UDP, under some access key or none, whether its packet is passed on, turned
  -- away or makes the handler panic.
  pub handle_loop-total :
      (text : NetText) (parse_addr : String → Option Addr) (clock : ℕ → ℕ) (rs : List UdpRead)
      (s : UdpState Key) (m : OutlineMetrics)
      → total
          (λ _. true)
          client_proxy
          udp
          (run_calls text parse_addr (report_calls clock (handle_loop h rs s).0) m).data_bytes
        ≡ bytes_read rs + total (λ _. true) client_proxy udp m.data_bytes
  handle_loop-total text parse_addr clock rs s m =
      run-data text parse_addr client_proxy udp (λ _. true)
        (report_calls clock (handle_loop h rs s).0) m
      ∙ ap (λ n. n + total (λ _. true) client_proxy udp m.data_bytes) (reported_bytes clock rs s)
