-- ===== src/Tcp/Samples.antt =====
-- A TCP service of service/tcp.go with a toy cipher, which opens a packet by its first byte.
use outline_ss_server.Prelude.{
  ℕ, ◌≡◌, refl, ap, inl, inr, Option-cases, none, some, List, [], ◌∷◌, ◌++◌, ◌==◌, if◌then◌else◌,
  length, take, replicate,
}
use outline_ss_server.Net.Text.{NetAddr, inet_addr}
use outline_ss_server.Net.Ranges.{mapped}
use outline_ss_server.Net.Ip.{to4}
use outline_ss_server.Net.Private.{is_private_address, require_public_ip}
use outline_ss_server.Net.Ip.{is_global_unicast}
use outline_ss_server.Salt.{Hashes, marking}
use outline_ss_server.Replay.{pos}
use outline_ss_server.Cipher.{Addr, v4, no_addr, Shadowsocks, CipherEntry}
use outline_ss_server.Tcp.State.{no_bytes, World, Service}
use outline_ss_server.Tcp.Auth.{Session}
use outline_ss_server.Tcp.Dial.{Dialer, Dialed, connected, dial_failed, dial_stream, Controlled}
use outline_ss_server.Tcp.Handler.{target, Visit}

abbrev pub toy_ss : Shadowsocks ℕ
toy_ss = record {
  salt_size = λ k. 32;
  tag_size = λ k. 16;
  unpack = λ bs k. elim bs [ [] ↦ none | b ∷ rest ↦ if b == k then some [] else none ];
}

abbrev pub toy : Hashes
toy = record { hmac_sha1 = λ k m. replicate 20 (length m); hkdf_sha1 = λ s i n. replicate n 7 }

abbrev pub svc : Service ℕ
svc = record {
  shadowsocks = toy_ss;
  hashes = toy;
  text = record {
    addr_string = λ a. "203.0.113.5:1234";
    split_host = λ s. some "203.0.113.5";
    parse_ip = λ s. some (203 ∷ 0 ∷ 113 ∷ 5 ∷ []);
    ip_string = λ ip. "203.0.113.5";
  };
  parse_addr_port = λ s. none;
  ip2info = none;
  port = 443;
  read_timeout = 59;
}

abbrev pub entries : ℕ → CipherEntry ℕ
entries n = record {
  id = n ∷ [];
  crypto_key = n;
  salt_generator = marking [];
  last_client_ip = no_addr;
}

-- Three keys, a cache for ten handshakes, and a client that sends 60 bytes.
abbrev pub world : List ℕ → World ℕ
world input = record {
  ciphers = record { store = entries; list = 1 ∷ 2 ∷ 3 ∷ [] };
  replay = some (record { capacity = pos 10; active = []; archive = [] });
  conn = record { input = input; ending = none };
  metrics = no_bytes;
  log = [];
}

abbrev pub client : NetAddr
client = inet_addr (203 ∷ 0 ∷ 113 ∷ 5 ∷ []) [] 1234

-- A client's salt, one under no key, and one that the server made.
abbrev pub good : List ℕ
good = 2 ∷ replicate 59 0

abbrev pub unknown : List ℕ
unknown = 9 ∷ replicate 59 0

abbrev pub reflected : List ℕ
reflected = 2 ∷ replicate 27 0 ++ replicate 32 28

abbrev pub client_ip : Addr
client_ip = v4 (203 ∷ 0 ∷ 113 ∷ 5 ∷ [])

abbrev pub session : Session ℕ
session = record { key = 2; first_bytes = take 50 good; salt_generator = marking [] }

-- A dialer that has one address for every target.
abbrev pub dialer : Dialer
dialer = record {
  ip_of = λ a. mapped 8 8 8 8;
  dial = λ check t. elim (check "dns.example:443") [
    | none ↦ connected "dns.example:443"
    | some e ↦ dial_failed e
  ];
}

pub dialer-Controlled : Controlled dialer
dialer-Controlled = record {
  asked = λ check target address h. elim (Option-cases (check "dns.example:443")) [
    | inl ok ↦
        let same : "dns.example:443" ≡ address =
          ap (λ (r : Dialed). elim r [ connected a ↦ a | dial_failed e ↦ "" ]) (rw ok at h) in
        rw same at ok
    | inr (e, bad) ↦ cc (rw bad at h)
  ];
}

pub dials :
    dial_stream dialer (require_public_ip (λ ip. "")) "example.com" ≡ connected "dns.example:443"
unfolding dial_stream require_public_ip is_global_unicast is_private_address to4
dials = refl

-- The connection of a client that asks for example.com.
abbrev pub visit : Visit ℕ
visit = record {
  remote = client;
  now = 100;
  ctx_deadline = some 120;
  read_request = λ session input. target "example.com:443" 10;
  dial_stream = dial_stream dialer (require_public_ip (λ ip. ""));
  relay_end = record {
    from_client = none;
    from_target = none;
    moved = record { client_proxy = 5; proxy_target = 4; target_proxy = 7; proxy_client = 9 };
  };
}
