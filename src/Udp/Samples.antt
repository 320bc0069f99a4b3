-- ===== src/Udp/Samples.antt =====
-- A UDP service of service/udp.go with a toy cipher, which opens a packet by its first byte.
use outline_ss_server.Prelude.{ℕ, ◌*◌, ◌^◌, inr, none, some, List, [], ◌∷◌, ◌==◌, if◌then◌else◌}
use outline_ss_server.Net.Text.{inet_addr}
use outline_ss_server.Salt.{random}
use outline_ss_server.Cipher.{v4, no_addr}
use outline_ss_server.Prelude.{ℕ}
use outline_ss_server.Prelude.Maps.{string_eq}
use outline_ss_server.Udp.Packet.{PacketHandler, UdpState, Incoming}

abbrev pub handler : PacketHandler ℕ
handler = record {
  shadowsocks = record {
    salt_size = λ k. 32;
    tag_size = λ k. 16;
    unpack = λ bs k. elim bs [ [] ↦ none | b ∷ rest ↦ if b == k then some rest else none ];
  };
  text = record {
    addr_string = λ a. "203.0.113.5:1234";
    split_host = λ s. some "203.0.113.5";
    parse_ip = λ s. some (203 ∷ 0 ∷ 113 ∷ 5 ∷ []);
    ip_string = λ ip. "203.0.113.5";
  };
  ip2info = none;
  net = record {
    split_addr = λ bs. elim bs [ [] ↦ none | b ∷ rest ↦ some (b ∷ []) ];
    resolve = λ tgt. inr (record { ip = 8 ∷ 8 ∷ 8 ∷ 8 ∷ []; port = 53 });
    listen = none;
    write = λ addr bs. (3, none);
  };
  target_ip_validator = λ ip. none;
}

abbrev pub port_state : UdpState ℕ
port_state = record {
  ciphers = record {
    store = λ n. record {
      id = n ∷ [];
      crypto_key = n;
      salt_generator = random;
      last_client_ip = no_addr;
    };
    list = 1 ∷ 2 ∷ [];
  };
  nat = record { key_conn = []; timeout = 300 * 10 ^ 9 };
  sockets = 0;
}

abbrev pub incoming : List ℕ → Incoming
incoming bs = record {
  remote = inet_addr (203 ∷ 0 ∷ 113 ∷ 5 ∷ []) [] 1234;
  client_ip = v4 (203 ∷ 0 ∷ 113 ∷ 5 ∷ []);
  packet = bs;
  now = 7;
}
