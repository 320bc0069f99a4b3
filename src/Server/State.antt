-- ===== src/Server/State.antt =====
-- cmd/outline-ss-server/main.go: the server's ports, the open sockets, and what a load is made of.
use outline_ss_server.Prelude.{ℕ, ◌+◌, ◌⊎◌, String, Option, none, some, List, [], ◌∷◌, ℤ, pos, pred}
use outline_ss_server.Prelude.Maps.{nat_eq, get, put}
use outline_ss_server.Net.GoError.{GoError, wrapped}
use outline_ss_server.Salt.{Hashes}
use outline_ss_server.Cipher.{Shadowsocks, CipherEntry}

-- An element of `Config.Keys`.
pub record KeyConfig : Type 0 where
  pub id : List ℕ
  pub port : ℕ
  pub cipher : String
  pub secret : List ℕ

pub data Proto : Type 0 where
  tcp : Proto
  udp : Proto

-- An open socket of the process.
pub record Socket : Type 0 where
  pub proto : Proto
  pub port : ℕ

pub record SsPort (Key : Type 0) : Type 0 where
  pub tcp_listener : ℕ
  pub packet_conn : ℕ
  pub cipher_list : List (CipherEntry Key)

-- `SSServer`, the open sockets by a number that no other has had, and the last call of `SetNumAccessKeys`.
pub record Server (Key : Type 0) : Type 0 where
  pub ports : List (ℕ × SsPort Key)
  pub sockets : List (ℕ × Socket)
  pub next_handle : ℕ
  pub num_access_keys : ℕ × ℕ

-- `net.ListenTCP` and `net.ListenUDP` with the sockets that are open, `Close` of a socket, which
-- releases it also if it returns an error, the order of a `range` over a map with these keys, and
-- `NewEncryptionKey`.
pub record Env (Key : Type 0) : Type 0 where
  pub listen : Proto → ℕ → List (ℕ × Socket) → Option GoError
  pub close : ℕ → Option GoError
  pub range : List ℕ → List ℕ
  pub new_encryption_key : String → List ℕ → GoError ⊎ Key
  pub shadowsocks : Shadowsocks Key
  pub hashes : Hashes

unfoldable pub count_of : ℕ → List (ℕ × ℤ) → ℤ
count_of port m = elim (get port m) [ none ↦ pos 0 | some n ↦ n ]

-- The loop over `s.ports`.
unfoldable pub retire : List ℕ → List (ℕ × ℤ) → List (ℕ × ℤ)
retire [] changes = changes
retire (p ∷ ps) changes = retire ps (put p (pred (count_of p changes)) changes)

-- How a call ends: nil, an error, or a nil dereference.
pub data Ending : Type 0 where
  returned : Ending
  failed : GoError → Ending
  crashed : Ending

-- `fmt.Errorf` with `%w` around the error of a call.
unfoldable pub wrap_ending : String → Ending → Ending
wrap_ending m returned = returned
wrap_ending m (failed e) = failed (wrapped m e)
wrap_ending m crashed = crashed

module _ {Key : Type 0} where
  unfoldable pub ciphers_of : ℕ → List (ℕ × List (CipherEntry Key)) → List (CipherEntry Key)
  ciphers_of port m = elim (get port m) [ none ↦ [] | some l ↦ l ]

  unfoldable pub open_socket : Proto → ℕ → Server Key → Server Key
  open_socket proto port s = record s {
    sockets = put s.next_handle (record { proto = proto; port = port }) s.sockets;
    next_handle = s.next_handle + 1;
  }
