-- ===== src/Server.antt =====
-- cmd/outline-ss-server/main.go: the ports of the server, and how a configuration is loaded. The
-- order in which Go ranges over a map is a parameter; so are the sockets, the encryption keys and
-- the file that is read. A reload runs to its end before the next signal is handled.
mod State
pub mod Ports
pub mod Changes
pub mod Load
pub mod Sockets
pub mod Sound
pub mod Reload
pub mod Grants
pub mod Outcome
pub mod Signals
pub mod Tests
pub use State.{
  KeyConfig, Proto, tcp, udp, Socket, SsPort, Server, Env, Ending, returned, failed, crashed,
}
unfoldable pub use State.{count_of, retire, wrap_ending, ciphers_of, open_socket}
use outline_ss_server.Prelude.{
  ℕ, zero, suc, ◌+◌, ◌⊎◌, inl, inr, String, Bool, Option, none, some, List, [], ◌∷◌, ◌++◌, ℤ, pos,
  negsuc, pred, ◌==◌, if◌then◌else◌, length,
}
use outline_ss_server.Prelude.Maps.{nat_eq, get, put, del, keys}
use outline_ss_server.Net.GoError.{GoError, plain, wrapped}
use outline_ss_server.Salt.{Hashes}
use outline_ss_server.Cipher.{Shadowsocks, CipherEntry, make_cipher_entry}

module _ {Key : Type 0} (env : Env Key) where
  unfoldable pub start_port : ℕ → Server Key → Ending × Server Key
  unfolding open_socket
  start_port port s = elim (env.listen tcp port s.sockets) [
    | some e ↦ (failed (wrapped "Shadowsocks TCP service failed to start" e), s)
    | none ↦
        let s₁ = open_socket tcp port s in
        elim (env.listen udp port s₁.sockets) [
          | some e ↦ (failed (wrapped "Shadowsocks UDP service failed to start" e), s₁)
          | none ↦
              let s₂ = open_socket udp port s₁ in
              (
                returned,
                record s₂ {
                  ports =
                      put port
                        (record {
                          tcp_listener = s.next_handle;
                          packet_conn = s₁.next_handle;
                          cipher_list = [];
                        })
                        s₂.ports;
                },
              )
        ]
  ]

  close_error : SsPort Key → Ending
  close_error p = elim (env.close p.tcp_listener) [
    | some e ↦ failed (wrapped "Shadowsocks TCP service failed to stop" e)
    | none ↦ elim (env.close p.packet_conn) [
      | some e ↦ failed (wrapped "Shadowsocks UDP service failed to stop" e)
      | none ↦ returned
    ]
  ]

  unfoldable pub remove_port : ℕ → Server Key → Ending × Server Key
  unfolding close_error
  remove_port port s = elim (get port s.ports) [
    | none ↦ (failed (plain "port doesn't exist"), s)
    | some p ↦ (
      close_error p,
      record s {
        sockets = del p.packet_conn (del p.tcp_listener s.sockets);
        ports = del port s.ports;
      },
    )
  ]

  -- The loop over `config.Keys`: `portChanges` and `portCiphers`, or the error of a key, which
  -- the caller wraps.
  unfoldable pub read_keys :
      List KeyConfig
      → List (ℕ × ℤ)
      → List (ℕ × List (CipherEntry Key))
      → GoError ⊎ (List (ℕ × ℤ) × List (ℕ × List (CipherEntry Key)))
  read_keys [] changes ciphers = inr (changes, ciphers)
  read_keys (k ∷ ks) changes ciphers = elim (env.new_encryption_key k.cipher k.secret) [
    | inl e ↦ inl e
    | inr key ↦ read_keys ks (put k.port (pos 1) changes) (
        put k.port
          (ciphers_of k.port ciphers
            ++ (make_cipher_entry env.hashes env.shadowsocks k.id key k.secret ∷ []))
          ciphers)
  ]

  -- One turn of the loop over `portChanges`.
  unfoldable pub change_port : ℕ → ℤ → Server Key → Ending × Server Key
  unfolding start_port remove_port wrap_ending
  change_port port (pos zero) s = (returned, s)
  change_port port (pos (suc zero)) s = start_port port s
  change_port port (pos (suc (suc n))) s = (returned, s)
  change_port port (negsuc zero) s =
      let (ending, s') = remove_port port s in (wrap_ending "failed to remove port" ending, s')
  change_port port (negsuc (suc n)) s = (returned, s)

  -- The loop over `portChanges`, up to the first error.
  unfoldable pub change_ports : List ℕ → List (ℕ × ℤ) → Server Key → Ending × Server Key
  unfolding change_port
  change_ports [] changes s = (returned, s)
  change_ports (p ∷ ps) changes s =
      let (ending, s') = change_port p (count_of p changes) s in
      elim ending [
        | returned ↦ change_ports ps changes s'
        | failed e ↦ (failed e, s')
        | crashed ↦ (crashed, s')
      ]

  -- The loop over `portCiphers`.
  unfoldable pub update_ciphers :
      List ℕ → List (ℕ × List (CipherEntry Key)) → Server Key → Ending × Server Key
  update_ciphers [] ciphers s = (returned, s)
  update_ciphers (p ∷ ps) ciphers s = elim (get p s.ports) [
    | none ↦ (crashed, s)
    | some port ↦
        update_ciphers ps ciphers
          (record s { ports = put p (record port { cipher_list = ciphers_of p ciphers }) s.ports })
  ]

  -- After the maps are made.
  unfoldable pub apply_config :
      List KeyConfig
      → List (ℕ × ℤ)
      → List (ℕ × List (CipherEntry Key))
      → Server Key
      → Ending × Server Key
  unfolding retire change_ports update_ciphers
  apply_config ks changes ciphers s =
      let all_changes = retire (env.range (keys s.ports)) changes in
      let (changed, s₁) = change_ports (env.range (keys all_changes)) all_changes s in
      elim changed [
        | failed e ↦ (failed e, s₁)
        | crashed ↦ (crashed, s₁)
        | returned ↦
            let (updated, s₂) = update_ciphers (env.range (keys ciphers)) ciphers s₁ in
            elim updated [
              | failed e ↦ (failed e, s₂)
              | crashed ↦ (crashed, s₂)
              | returned ↦
                  (returned, record s₂ { num_access_keys = (length ks, length (keys ciphers)) })
            ]
      ]

  -- `loadConfig`, given what `readConfig` returns.
  unfoldable pub load_config : GoError ⊎ List KeyConfig → Server Key → Ending × Server Key
  unfolding read_keys apply_config
  load_config (inl e) s = (failed (wrapped "failed to load config" e), s)
  load_config (inr ks) s = elim (read_keys ks [] []) [
    | inl e ↦ (failed (wrapped "failed to create encryption key" e), s)
    | inr (changes, ciphers) ↦ apply_config ks changes ciphers s
  ]

  -- `Stop`, over the ports in the order of its `range`.
  unfoldable pub stop_ports : List ℕ → Server Key → Ending × Server Key
  unfolding remove_port
  stop_ports [] s = (returned, s)
  stop_ports (p ∷ ps) s =
      let (ending, s') = remove_port p s in
      elim ending [
        | returned ↦ stop_ports ps s'
        | failed e ↦ (failed e, s')
        | crashed ↦ (crashed, s')
      ]

  unfoldable pub stop : Server Key → Ending × Server Key
  unfolding stop_ports
  stop s = stop_ports (env.range (keys s.ports)) s
