-- ===== src/Tcp/Auth.antt =====
-- service/tcp.go: the search for the access key, and the stream authenticator.
use outline_ss_server.Prelude.{
  ℕ, ◌+◌, String, Bool, true, false, Option, none, some, List, [], ◌∷◌, ltb, ◌==◌, if◌then◌else◌,
  length, take,
}
use outline_ss_server.Net.GoError.{GoError, plain, wrapped, ConnectionError, new_connection_error}
use outline_ss_server.Net.Text.{NetAddr, nil_addr, inet_addr, other_addr}
use outline_ss_server.Salt.{Hashes, ServerSaltGenerator, is_server_salt}
use outline_ss_server.Cipher.{
  Addr, no_addr, v4, v6, Shadowsocks, CipherEntry, snapshot_for_client_ip, mark_used_by_client_ip,
}
use outline_ss_server.Replay.{add}
use outline_ss_server.Tcp.State.{
  cipher_search, Outcome, done, panic, M, ◌>>=◌, ◌>>◌, pure, lift, gets, emit, Read, bytes, short,
  read_full, Service,
}

-- `netip.AddrFromSlice`, with the zone; a slice of another length gives the zero address.
addr_of : List ℕ → List ℕ → Addr
addr_of ip zone = if length ip == 4 then v4 ip else if length ip == 16 then v6 ip zone else no_addr

unfoldable pub remote_ip : (String → Option Addr) → NetAddr → Addr
unfolding addr_of
remote_ip parse_addr_port nil_addr = no_addr
remote_ip parse_addr_port (inet_addr ip zone port) = addr_of ip zone
remote_ip parse_addr_port (other_addr s) = elim (parse_addr_port s) [ some a ↦ a | none ↦ no_addr ]

abbrev pub bytes_for_key_finding : ℕ
bytes_for_key_finding = 50

pub data KeySearch : Type 0 where
  missed : GoError → KeySearch
  hit : ℕ → List ℕ → List ℕ → KeySearch

-- What the authenticator hands on: the key for both directions, and the bytes read so far, which
-- stand before the rest of the input.
pub record Session (Key : Type 0) : Type 0 where
  pub key : Key
  pub first_bytes : List ℕ
  pub salt_generator : ServerSaltGenerator

pub data AuthResult (Key : Type 0) : Type 0 where
  accepted : List ℕ → Session Key → AuthResult Key
  refused : List ℕ → ConnectionError → AuthResult Key

module _ {Key : Type 0} where
  -- The bytes that authenticate under a key: the salt, the length and its tag.
  abbrev pub header_size : Shadowsocks Key → Key → ℕ
  header_size ss key = ss.salt_size key + 2 + ss.tag_size key

  -- The trial decryption search. A slice beyond the capacity and a nil element are panics.
  unfoldable pub find_entry :
      Shadowsocks Key → (ℕ → CipherEntry Key) → List ℕ → List (Option ℕ) → Outcome (Option ℕ)
  find_entry ss store first [] = done none
  find_entry ss store first (none ∷ es) = panic
  find_entry ss store first (some e ∷ es) =
      let key = (store e).crypto_key in
      let rest = find_entry ss store first es in
      if ltb (length first) (header_size ss key)
      then panic
      else elim (ss.unpack (take (header_size ss key) first) key) [
        | none ↦ rest
        | some _ ↦ done (some e)
      ]

  mark_used : ℕ → Addr → M Key (Unit {0})
  mark_used e ip w = (done tt, record w { ciphers = mark_used_by_client_ip w.ciphers e ip })

  -- What is done with the result of the search.
  unfoldable pub use_entry :
      Shadowsocks Key → Addr → (ℕ → CipherEntry Key) → List ℕ → Option ℕ → M Key KeySearch
  unfolding mark_used
  use_entry ss client_ip store first none = pure (missed (plain "could not find valid TCP cipher"))
  use_entry ss client_ip store first (some e) = do
    mark_used e client_ip
    pure (hit e first (take (ss.salt_size (store e).crypto_key) first))

  -- What is done with the first bytes.
  unfoldable pub search_bytes : Shadowsocks Key → Addr → List (Option ℕ) → Read → M Key KeySearch
  unfolding use_entry
  search_bytes ss client_ip ciphers (short err) =
      pure (missed (wrapped "reading header failed" err))
  search_bytes ss client_ip ciphers (bytes first) = do
    store ← gets (λ w. w.ciphers.store)
    entry ← lift (find_entry ss store first ciphers)
    use_entry ss client_ip store first entry

  unfoldable pub find_access_key : Shadowsocks Key → Addr → M Key KeySearch
  unfolding search_bytes
  find_access_key ss client_ip = do
    ciphers ← gets (λ w. snapshot_for_client_ip w.ciphers client_ip)
    read ← read_full bytes_for_key_finding
    search_bytes ss client_ip ciphers read

  -- `replayCache.Add`
  add_replay : List ℕ → List ℕ → M Key Bool
  add_replay id salt w =
      let (fresh, cache) = add w.replay id salt in (done fresh, record w { replay = cache })

  refuse : List ℕ → String → M Key (AuthResult Key)
  refuse id status = pure (refused id (new_connection_error status "Replay detected" none))

  accept : CipherEntry Key → List ℕ → M Key (AuthResult Key)
  accept entry first = pure (
      accepted entry.id (record {
        key = entry.crypto_key;
        first_bytes = first;
        salt_generator = entry.salt_generator;
      }))

  -- The cache is asked only about a salt that is not the server's own.
  unfoldable pub check_replay : Hashes → CipherEntry Key → List ℕ → List ℕ → M Key (AuthResult Key)
  unfolding add_replay refuse accept
  check_replay hashes entry first salt =
      if is_server_salt hashes entry.salt_generator salt
      then refuse entry.id "ERR_REPLAY_SERVER"
      else (do
        fresh ← add_replay entry.id salt
        if fresh then accept entry first else refuse entry.id "ERR_REPLAY_CLIENT")

  -- What is done with the search's result.
  unfoldable pub judge : Service Key → KeySearch → M Key (AuthResult Key)
  judge svc (missed err) = do
    emit (cipher_search false)
    pure (refused [] (new_connection_error "ERR_CIPHER" "Failed to find a valid cipher" (some err)))
  judge svc (hit e first salt) = do
    emit (cipher_search true)
    store ← gets (λ w. w.ciphers.store)
    check_replay svc.hashes (store e) first salt

  -- The function that `NewShadowsocksStreamAuthenticator` returns.
  unfoldable pub authenticate : Service Key → NetAddr → M Key (AuthResult Key)
  unfolding judge
  authenticate svc remote = do
    search ← find_access_key svc.shadowsocks (remote_ip svc.parse_addr_port remote)
    judge svc search
