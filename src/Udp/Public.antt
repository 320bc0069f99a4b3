-- ===== src/Udp/Public.antt =====
-- service/udp.go: `NewPacketHandler`, whose handler validates targets by `RequirePublicIP` of
-- net/private_net.go, and `SetTargetIPValidator`.
use outline_ss_server.Prelude.{
  ℕ, ◌<◌, ◌≡◌, refl, ap, sym, ◌∙◌, inl, inr, ◌⊎◌, Option, none, some, List, [], ◌∷◌,
}
use outline_ss_server.Net.GoError.{GoError, ConnectionError, to_error}
use outline_ss_server.Net.Text.{NetText}
use outline_ss_server.Net.Private.{require_public_ip}
use outline_ss_server.Net.Ranges.{
  status_of, expected_status4, mapped, require_public_ip_v4, require_public_ip-mapped,
}
use outline_ss_server.IpInfo.{IpInfoMap}
use outline_ss_server.Cipher.{Shadowsocks}
use outline_ss_server.Udp.Packet.{UdpAddr, UdpNet, PacketHandler, UdpState, Incoming, handle_packet}
use outline_ss_server.Udp.Admission.{handle_packet-Delivered}

-- A `*ConnectionError` as an error.
abbrev pub as_error : Option ConnectionError → Option GoError
as_error none = none
as_error (some e) = some (to_error e)

as_error-none : (o : Option ConnectionError) → as_error o ≡ none → status_of o ≡ none
as_error-none none h = refl
as_error-none (some e) h = cc

module _ {Key : Type 0} where
  unfoldable pub new_packet_handler :
      Shadowsocks Key → NetText → Option IpInfoMap → UdpNet → PacketHandler Key
  new_packet_handler ss text ip2info net = record {
    shadowsocks = ss;
    text = text;
    ip2info = ip2info;
    net = net;
    target_ip_validator = λ ip. as_error (require_public_ip text.ip_string ip);
  }

  unfoldable pub set_target_ip_validator :
      (List ℕ → Option GoError) → PacketHandler Key → PacketHandler Key
  set_target_ip_validator validator h = record h { target_ip_validator = validator }

  -- A handler as `NewPacketHandler` makes it sends a packet to an IPv4 address, be it written in 4 bytes or
  -- in 16, only if the address is public: for every packet of a client and every state of the
  -- port, no datagram goes to an address that the rules on private and special addresses exclude.
  pub handle_packet-public :
      (ss : Shadowsocks Key) (text : NetText) (ip2info : Option IpInfoMap) (net : UdpNet)
      (p : Incoming) (s : UdpState Key) (addr : UdpAddr) (payload : List ℕ) (a b c d : ℕ)
      → a < 256
      → b < 256
      → c < 256
      → d < 256
      → (addr.ip ≡ a ∷ b ∷ c ∷ d ∷ []) ⊎ (addr.ip ≡ mapped a b c d)
      → (handle_packet (new_packet_handler ss text ip2info net) p s).0.written
        ≡ some (addr, payload)
      → expected_status4 a b c d ≡ none
  unfolding new_packet_handler
  handle_packet-public ss text ip2info net p s addr payload a b c d ha hb hc hd form w =
      let h = new_packet_handler ss text ip2info net in
      let valid = (handle_packet-Delivered h p s addr payload w).readable.valid in
      let public = as_error-none (require_public_ip text.ip_string addr.ip) valid in
      let v4_form = require_public_ip_v4 text.ip_string a b c d ha hb hc hd in
      elim form [
        | inl four ↦
            sym v4_form ∙ ap status_of (ap (require_public_ip text.ip_string) (sym four)) ∙ public
        | inr sixteen ↦
            sym v4_form
            ∙ sym (require_public_ip-mapped text.ip_string a b c d)
            ∙ ap status_of (ap (require_public_ip text.ip_string) (sym sixteen))
            ∙ public
      ]
