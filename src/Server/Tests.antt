-- ===== src/Server/Tests.antt =====
-- Loads of configurations by the server of cmd/outline-ss-server/main.go.
use outline_ss_server.Prelude.{
  ◌⊎◌, ℕ, ◌≡◌, ◌≢◌, refl, ap, inl, inr, Bool, true, false, ◌&&◌, ◌||◌, Option, none, some, List, [],
  ◌∷◌, ◌==◌, ==_iff, if◌then◌else◌, Bool-cases, length,
}
use outline_ss_server.Prelude.Maps.{nat_eq, get, put, keys, Once}
use outline_ss_server.Net.GoError.{GoError, plain, wrapped}
use outline_ss_server.Server.{
  KeyConfig, Server, Proto, tcp, udp, Socket, Env, returned, failed, count_of, ciphers_of, retire,
  read_keys, start_port, open_socket, change_port, change_ports, update_ciphers, apply_config,
  load_config, stop,
}
use outline_ss_server.Server.Load.{Ranges, Promised, load_config-Promised}
use outline_ss_server.Server.Sound.{Sound}
use outline_ss_server.Server.Reload.{bad_key, load_config-Sound}
use outline_ss_server.Server.Grants.{Grants}
use outline_ss_server.Server.Outcome.{load_config-returned, stop_lem, start_port-leak}

abbrev same_proto : Proto → Proto → Bool
same_proto tcp tcp = true
same_proto udp udp = true
same_proto _ _ = false

abbrev is_socket : Proto → ℕ → Option Socket → Bool
is_socket proto p none = false
is_socket proto p (some k) = same_proto k.proto proto && (k.port == p)

-- Whether a socket is open for a port.
abbrev in_use : Proto → ℕ → List ℕ → List (ℕ × Socket) → Bool
in_use proto p [] ss = false
in_use proto p (h ∷ hs) ss = is_socket proto p (get h ss) || in_use proto p hs ss

-- A secret is a key by its length; the system has a socket for each port and kind.
abbrev pub toy : Env ℕ
toy = record {
  listen = λ proto p ss.
      if in_use proto p (keys ss) ss then some (plain "address already in use") else none;
  close = λ h. none;
  range = λ ks. ks;
  new_encryption_key =
      λ cipher secret. if length secret == 0 then inl (plain "no secret") else inr (length secret);
  shadowsocks = record { salt_size = λ key. 32; tag_size = λ key. 16; unpack = λ packet key. none };
  hashes = record { hmac_sha1 = λ key text. text; hkdf_sha1 = λ key info n. key };
}

pub toy-Ranges : Ranges toy
toy-Ranges = record { visits = λ ks k. refl; once = λ ks u. u }

same_proto_lem : (x y : Proto) → same_proto x y ≡ true → x ≡ y
same_proto_lem tcp tcp h = refl
same_proto_lem udp udp h = refl
same_proto_lem tcp udp h = cc
same_proto_lem udp tcp h = cc

is_socket_lem :
    (proto : Proto) (p : ℕ) (o : Option Socket)
    → is_socket proto p o ≡ true
    → o ≡ some (record { proto = proto; port = p })
is_socket_lem proto p none h = cc
is_socket_lem proto p (some k) h = elim (Bool-cases (same_proto k.proto proto)) [
  | inr other ↦ cc (rw other at h)
  | inl same ↦
      ap (λ (x : Proto × ℕ). some (record { proto = x.0; port = x.1 }))
        (let q : k.port ≡ p = (==_iff k.port p).0 (rw same at h) in
          let r : k.proto ≡ proto = same_proto_lem k.proto proto same in (rw (q, r) refl))
]

not_in_use :
    (proto : Proto) (p : ℕ) (hs : List ℕ) (ss : List (ℕ × Socket))
    → ((h : ℕ) → get h ss ≢ some (record { proto = proto; port = p }))
    → in_use proto p hs ss ≡ false
not_in_use proto p [] ss free = refl
not_in_use proto p (h ∷ hs) ss free = elim (Bool-cases (is_socket proto p (get h ss))) [
  | inl e ↦ absurd (free h (is_socket_lem proto p (get h ss) e))
  | inr e ↦ rw e (not_in_use proto p hs ss free)
]

pub toy-Grants : Grants toy
toy-Grants = record {
  listens = λ proto p ss free. rw (not_in_use proto p (keys ss) ss free) refl;
  closes = λ h. refl;
}

abbrev empty : Server ℕ
empty = record { ports = []; sockets = []; next_handle = 0; num_access_keys = (0, 0) }

empty-Sound : Sound empty
unfolding get Once keys
empty-Sound = record {
  tidy = record { opened = λ p a proto e. cc; owned = λ h k e. cc; below = λ h k e. cc };
  once = tt;
}

abbrev key : ℕ → ℕ → KeyConfig
key id port = record {
  id = id ∷ [];
  port = port;
  cipher = "chacha20-ietf-poly1305";
  secret = id ∷ 7 ∷ [];
}

abbrev pub first_config : List KeyConfig
first_config = key 1 443 ∷ key 2 8388 ∷ key 3 443 ∷ []

abbrev pub second_config : List KeyConfig
second_config = key 3 9000 ∷ key 2 8388 ∷ []

-- Port 443 with two keys, and port 8388 with one.
running : Server ℕ
running = (load_config toy (inr first_config) empty).1

pub first_good : bad_key toy first_config ≡ none
unfolding bad_key
first_good = refl

first_load : (load_config toy (inr first_config) empty).0 ≡ returned
first_load =
    load_config-returned toy toy-Ranges toy-Grants first_config empty empty-Sound first_good

running-Sound : Sound running
unfolding running
running-Sound = load_config-Sound toy toy-Ranges first_config empty empty-Sound first_load

second_good : bad_key toy second_config ≡ none
unfolding bad_key
second_good = refl

second_load : (load_config toy (inr second_config) running).0 ≡ returned
second_load =
    load_config-returned toy toy-Ranges toy-Grants second_config running running-Sound second_good

load_config-Sound_example : Sound (load_config toy (inr second_config) running).1
load_config-Sound_example =
    load_config-Sound toy toy-Ranges second_config running running-Sound second_load

load_config-Promised_example :
    Promised toy second_config 443
      (get 443 running.ports)
      (get 443 (load_config toy (inr second_config) running).1.ports)
load_config-Promised_example =
    load_config-Promised toy toy-Ranges second_config running 443 running-Sound.once second_load

stop_lem_example :
    ((stop toy running).0 ≡ returned)
    × ((p : ℕ) → get p (stop toy running).1.ports ≡ none)
    × ((h : ℕ) → get h (stop toy running).1.sockets ≡ none)
stop_lem_example = stop_lem toy toy-Ranges toy-Grants.closes running running-Sound

-- The numbers of keys and ports that are reported.
counted_test : running.num_access_keys ≡ (3, 2)
unfolding running load_config read_keys apply_config retire change_ports change_port start_port
    open_socket update_ciphers count_of ciphers_of get put keys
counted_test = refl

-- A system that has no UDP socket left.
abbrev no_udp : Env ℕ
no_udp = record toy {
  listen = λ proto p ss. elim proto [ tcp ↦ none | udp ↦ some (plain "address already in use") ];
}

start_port-leak_example :
    let (ending, s') = start_port no_udp 443 empty in
    (ending
      ≡ failed (wrapped "Shadowsocks UDP service failed to start" (plain "address already in use")))
    × (s'.ports ≡ [])
    × (get 0 s'.sockets ≡ some (record { proto = tcp; port = 443 }))
    × (¬ (Sound s'))
unfolding get
start_port-leak_example =
    start_port-leak no_udp 443 empty (plain "address already in use") refl refl refl

-- The second load fails, the third cannot be read, and the fourth is a good one.
abbrev signals : List (GoError ⊎ List KeyConfig)
signals =
    inr (record { id = []; port = 80; cipher = ""; secret = [] } ∷ first_config)
    ∷ inl (plain "no such file")
    ∷ inr second_config
    ∷ []
