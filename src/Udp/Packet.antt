-- ===== src/Udp/Packet.antt =====
-- service/udp.go: what the service does with one packet of a client.
use outline_ss_server.Prelude.{
  ℕ, ◌+◌, String, ◌⊎◌, inl, inr, Bool, true, false, Option, none, some, List, [], ◌∷◌, ◌==◌, length,
  drop,
}
use outline_ss_server.Net.GoError.{
  GoError, plain, ConnectionError, new_connection_error, ensure_connection_error,
}
use outline_ss_server.Net.Text.{NetAddr, NetText}
use outline_ss_server.IpInfo.{IpInfo, IpInfoMap, get_ip_info_from_addr}
use outline_ss_server.Cipher.{
  Addr, Shadowsocks, CipherList, snapshot_for_client_ip, mark_used_by_client_ip,
}
use outline_ss_server.Tcp.State.{Outcome, done, panic}
use outline_ss_server.Udp.NatConn.{NatConn, on_write}
use outline_ss_server.Udp.NatMap.{NatMap, get, set, update}

-- An address that `net.ResolveUDPAddr` gives.
pub record UdpAddr : Type 0 where
  pub ip : List ℕ
  pub port : ℕ

-- `socks.SplitAddr`, which gives the bytes of the address at the start; `net.ResolveUDPAddr` of
-- their text, the new socket, and a write to it, which gives the number of bytes.
pub record UdpNet : Type 0 where
  pub split_addr : List ℕ → Option (List ℕ)
  pub resolve : List ℕ → GoError ⊎ UdpAddr
  pub listen : Option GoError
  pub write : UdpAddr → List ℕ → ℕ × Option GoError

pub record PacketHandler (Key : Type 0) : Type 0 where
  pub shadowsocks : Shadowsocks Key
  pub text : NetText
  pub ip2info : Option IpInfoMap
  pub net : UdpNet
  pub target_ip_validator : List ℕ → Option GoError

-- The ciphers and the table of a port, and how many sockets have been opened for its clients.
pub record UdpState (Key : Type 0) : Type 0 where
  pub ciphers : CipherList Key
  pub nat : NatMap Key
  pub sockets : ℕ

-- A packet that came in: the client's address, its text and its IP, and the time.
pub record Incoming : Type 0 where
  pub remote : NetAddr
  pub client_ip : Addr
  pub packet : List ℕ
  pub now : ℕ

-- The text of a plaintext, or an error.
pub data Checked : Type 0 where
  allowed : List ℕ → UdpAddr → Checked
  rejected : ConnectionError → Checked

-- What was found for a packet: whether a cipher opened it, if one was looked for, what is reported
-- of its client, its key's ID, and its target with the client's entry; or an error; or a panic.
pub data Verdict (Key : Type 0) : Type 0 where
  admitted : IpInfo → List ℕ → NatConn Key → List ℕ → UdpAddr → Verdict Key
  turned_away : Bool → IpInfo → List ℕ → ConnectionError → Verdict Key
  crashed : IpInfo → Verdict Key

-- `AddUDPPacketFromClient`, and the write to the target that was made, if one was.
pub record Report : Type 0 where
  pub client_info : IpInfo
  pub key_id : List ℕ
  pub status : String
  pub cipher_search : Option Bool
  pub client_proxy_bytes : ℕ
  pub proxy_target_bytes : ℕ
  pub written : Option (UdpAddr × List ℕ)

module _ {Key : Type 0} (h : PacketHandler Key) where
  -- The trial decryption: the plaintext and the element of its key. A nil element is a panic.
  unfoldable pub unpack_entry :
      CipherList Key → List ℕ → List (Option ℕ) → Outcome (Option (List ℕ × ℕ))
  unpack_entry cl src [] = done none
  unpack_entry cl src (none ∷ es) = panic
  unpack_entry cl src (some e ∷ es) =
      let rest = unpack_entry cl src es in
      elim (h.shadowsocks.unpack src (cl.store e).crypto_key) [
        | none ↦ rest
        | some text ↦ done (some (text, e))
      ]

  unfoldable pub find_access_key_udp :
      Addr → List ℕ → CipherList Key → Outcome (Option (List ℕ × ℕ)) × CipherList Key
  unfolding unpack_entry
  find_access_key_udp ip src cl = elim (unpack_entry cl src (snapshot_for_client_ip cl ip)) [
    | panic ↦ (panic, cl)
    | done none ↦ (done none, cl)
    | done (some (text, e)) ↦ (done (some (text, e)), mark_used_by_client_ip cl e ip)
  ]

  unfoldable pub validate_packet : List ℕ → Checked
  validate_packet text_data = elim (h.net.split_addr text_data) [
    | none ↦ rejected (new_connection_error "ERR_READ_ADDRESS" "Failed to get target address" none)
    | some tgt ↦ elim (h.net.resolve tgt) [
      | inl e ↦
          rejected
            (new_connection_error "ERR_RESOLVE_ADDRESS" "Failed to resolve target address" (some e))
      | inr addr ↦
          elim (ensure_connection_error (h.target_ip_validator addr.ip) "ERR_ADDRESS_INVALID"
            "invalid address") [
              | some e ↦ rejected e
              | none ↦ allowed (drop (length tgt) text_data) addr
            ]
    ]
  ]

  -- After a validation, the target and the payload go to a socket.
  unfoldable pub judge : IpInfo → List ℕ → Checked → NatConn Key → Verdict Key
  judge info id (rejected e) entry = turned_away true info id e
  judge info id (allowed payload addr) entry = admitted info id entry payload addr

  -- A client that is not in the table: its entry is made once the packet has passed all tests.
  unfoldable pub admit_opened :
      Incoming → IpInfo → List ℕ → ℕ → UdpState Key → Verdict Key × UdpState Key
  unfolding validate_packet
  admit_opened p info text_data e s = elim (validate_packet text_data) [
    | rejected err ↦ (turned_away true info (s.ciphers.store e).id err, s)
    | allowed payload addr ↦ elim h.net.listen [
      | some err ↦ (
        turned_away true info (s.ciphers.store e).id
            (new_connection_error "ERR_CREATE_SOCKET" "Failed to create UDP socket" (some err)),
        s,
      )
      | none ↦
          let (entry, nat) =
            set (h.text.addr_string p.remote) (s.ciphers.store e).crypto_key (s.ciphers.store e).id
              info s.nat in
          (
            admitted info (s.ciphers.store e).id entry payload addr,
            record s { nat = nat; sockets = s.sockets + 1 },
          )
    ]
  ]

  unfoldable pub admit_new : Incoming → UdpState Key → Verdict Key × UdpState Key
  unfolding find_access_key_udp admit_opened
  admit_new p s =
      let info = (get_ip_info_from_addr h.text h.ip2info p.remote).0 in
      let (found, ciphers) = find_access_key_udp p.client_ip p.packet s.ciphers in
      let s' = record s { ciphers = ciphers } in
      elim found [
        | panic ↦ (crashed info, s')
        | done none ↦ (
          turned_away false info [] (
              new_connection_error "ERR_CIPHER" "Failed to unpack initial packet"
                (some (plain "could not find valid UDP cipher"))),
          s',
        )
        | done (some (text_data, e)) ↦ admit_opened p info text_data e s'
      ]

  -- A client in the table: its packets are opened with the key of its first one.
  unfoldable pub admit_known : Incoming → NatConn Key → Verdict Key
  unfolding validate_packet judge
  admit_known p entry = elim (h.shadowsocks.unpack p.packet entry.crypto_key) [
    | none ↦ turned_away false entry.client_info [] (
        new_connection_error "ERR_CIPHER" "Failed to unpack data from client"
          (some (plain "failed to unpack")))
    | some text_data ↦ judge entry.client_info entry.key_id (validate_packet text_data) entry
  ]

  unfoldable pub admit : Incoming → UdpState Key → Verdict Key × UdpState Key
  unfolding admit_new admit_known
  admit p s = elim (get (h.text.addr_string p.remote) s.nat) [
    | none ↦ admit_new p s
    | some entry ↦ (admit_known p entry, s)
  ]

  -- The write to the target and the report; a panic is recovered from, and reported as "OK".
  unfoldable pub conclude : Incoming → Verdict Key → UdpState Key → Report × UdpState Key
  conclude p (crashed info) s = (
    record {
      client_info = info;
      key_id = [];
      status = "OK";
      cipher_search = none;
      client_proxy_bytes = length p.packet;
      proxy_target_bytes = 0;
      written = none;
    },
    s,
  )
  conclude p (turned_away opened info id err) s = (
    record {
      client_info = info;
      key_id = id;
      status = err.status;
      cipher_search = some opened;
      client_proxy_bytes = length p.packet;
      proxy_target_bytes = 0;
      written = none;
    },
    s,
  )
  conclude p (admitted info id entry payload addr) s = (
    record {
      client_info = info;
      key_id = id;
      status = elim (h.net.write addr payload).1 [ none ↦ "OK" | some _ ↦ "ERR_WRITE" ];
      cipher_search = some true;
      client_proxy_bytes = length p.packet;
      proxy_target_bytes = (h.net.write addr payload).0;
      written = some (addr, payload);
    },
    record s {
      nat = update (h.text.addr_string p.remote) (on_write (addr.port == 53) p.now entry) s.nat;
    },
  )

  -- One turn of the loop of `Handle`, on a packet that was read without an error.
  unfoldable pub handle_packet : Incoming → UdpState Key → Report × UdpState Key
  unfolding admit conclude
  handle_packet p s = let (verdict, s') = admit p s in conclude p verdict s'
