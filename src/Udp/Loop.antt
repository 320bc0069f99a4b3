-- ===== src/Udp/Loop.antt =====
-- service/udp.go: the loop of `Handle` over what it reads from the clients' socket.
use outline_ss_server.Prelude.{ℕ, Bool, true, false, none, List, [], ◌∷◌}
use outline_ss_server.Net.GoError.{GoError}
use outline_ss_server.IpInfo.{no_info}
use outline_ss_server.Cipher.{CipherList}
use outline_ss_server.Udp.NatMap.{close}
use outline_ss_server.Udp.Packet.{PacketHandler, UdpState, Incoming, Report, handle_packet}

-- What `ReadFrom` returns: a packet, `net.ErrClosed` at a time, or another error with a number of bytes.
pub data UdpRead : Type 0 where
  datagram : Incoming → UdpRead
  socket_closed : ℕ → UdpRead
  read_failed : ℕ → GoError → UdpRead

-- An error of a read is reported without a client and a key.
abbrev pub read_report : ℕ → Report
read_report n = record {
  client_info = no_info;
  key_id = [];
  status = "ERR_READ";
  cipher_search = none;
  client_proxy_bytes = n;
  proxy_target_bytes = 0;
  written = none;
}

module _ {Key : Type 0} (h : PacketHandler Key) where
  -- The reports in their order, the state, and whether the loop has ended, which
  -- closes the NAT table.
  unfoldable pub handle_loop : List UdpRead → UdpState Key → List Report × UdpState Key × Bool
  unfolding handle_packet close
  handle_loop [] s = ([], s, false)
  handle_loop (socket_closed now ∷ rest) s = ([], record s { nat = close now s.nat }, true)
  handle_loop (read_failed n e ∷ rest) s =
      let (reports, s', ended) = handle_loop rest s in (read_report n ∷ reports, s', ended)
  handle_loop (datagram p ∷ rest) s =
      let (report, s₁) = handle_packet h p s in
      let (reports, s', ended) = handle_loop rest s₁ in (report ∷ reports, s', ended)

  -- `Handle`, with a new NAT table.
  unfoldable pub handle : ℕ → List UdpRead → CipherList Key → List Report × UdpState Key × Bool
  unfolding handle_loop
  handle nat_timeout reads ciphers = handle_loop reads (record {
    ciphers = ciphers;
    nat = record { key_conn = []; timeout = nat_timeout };
    sockets = 0;
  })
