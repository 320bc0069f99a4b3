-- ===== src/Tcp/Checks.antt =====
-- The replay check and the search of service/tcp.go on their own.
use outline_ss_server.Prelude.{
  ℕ, ◌≡◌, refl, inl, inr, true, false, Option, none, some, List, [], ◌∷◌, ltb, arith, length, take,
  Bool-cases, Option-cases,
}
use outline_ss_server.Net.GoError.{new_connection_error}
use outline_ss_server.Salt.{Hashes, is_server_salt}
use outline_ss_server.Replay.{ReplayCache, pre_hash, add}
use outline_ss_server.Replay.Recall.{
  Fits, add_hash-Fits, add_hash-starts, Recalls-refused, add_enabled,
}
use outline_ss_server.Cipher.{Shadowsocks, CipherEntry}
use outline_ss_server.Tcp.State.{World, done}
use outline_ss_server.Tcp.Auth.{Session, accepted, refused, header_size, find_entry, check_replay}

pub check_replay_accepts :
    {Key : Type 0} (hashes : Hashes) (entry : CipherEntry Key) (first salt : List ℕ) (w : World Key)
    (id : List ℕ) (session : Session Key)
    → (check_replay hashes entry first salt w).0 ≡ done (accepted id session)
    → (is_server_salt hashes entry.salt_generator salt ≡ false)
      × ((add w.replay entry.id salt).0 ≡ true)
      × (id ≡ entry.id)
      × (session ≡ record {
        key = entry.crypto_key;
        first_bytes = first;
        salt_generator = entry.salt_generator;
      })
      × ((check_replay hashes entry first salt w).1
          ≡ record w { replay = (add w.replay entry.id salt).1 })
unfolding check_replay
check_replay_accepts hashes entry first salt w id session h =
    elim (Bool-cases (is_server_salt hashes entry.salt_generator salt)) [
      | inl server ↦ cc (rw server at h)
      | inr other ↦ elim (Bool-cases (add w.replay entry.id salt).0) [
        | inl fresh ↦
            let h' = rw (other, fresh) at h in
            (other, fresh, ground arith, ground arith, rw (other, fresh) refl)
        | inr old ↦ cc (rw (other, old) at h)
      ]
    ]

pub find_entry-opens :
    {Key : Type 0} (ss : Shadowsocks Key) (store : ℕ → CipherEntry Key) (first : List ℕ)
    (es : List (Option ℕ)) (e : ℕ)
    → find_entry ss store first es ≡ done (some e)
    → (p : List ℕ) × (ltb (length first) (header_size ss (store e).crypto_key) ≡ false)
      × (ss.unpack (take (header_size ss (store e).crypto_key) first) (store e).crypto_key ≡ some p)
unfolding find_entry
find_entry-opens ss store first [] e h = ground arith
find_entry-opens ss store first (none ∷ es) e h = ground arith
find_entry-opens ss store first (some x ∷ es) e h =
    elim (Bool-cases (ltb (length first) (header_size ss (store x).crypto_key))) [
      | inl beyond ↦ cc (rw beyond at h)
      | inr fits ↦
          elim (Option-cases
            (ss.unpack (take (header_size ss (store x).crypto_key) first) (store x).crypto_key)) [
              | inl closed ↦ find_entry-opens ss store first es e (ground arith)
              | inr (p, open_by) ↦
                  let same : x ≡ e = ground arith in (p, rw same at fits, rw same at open_by)
            ]
    ]

pub find_entry-head :
    {Key : Type 0} (ss : Shadowsocks Key) (store : ℕ → CipherEntry Key) (first : List ℕ)
    (es : List (Option ℕ)) (e : ℕ) (p : List ℕ)
    → ltb (length first) (header_size ss (store e).crypto_key) ≡ false
    → ss.unpack (take (header_size ss (store e).crypto_key) first) (store e).crypto_key ≡ some p
    → find_entry ss store first (some e ∷ es) ≡ done (some e)
unfolding find_entry
find_entry-head ss store first es e p h k = ground arith

pub check_replay_old :
    {Key : Type 0} (hashes : Hashes) (entry : CipherEntry Key) (first salt : List ℕ) (w : World Key)
    → is_server_salt hashes entry.salt_generator salt ≡ false
    → (add w.replay entry.id salt).0 ≡ false
    → (check_replay hashes entry first salt w).0
      ≡ done (refused entry.id (new_connection_error "ERR_REPLAY_CLIENT" "Replay detected" none))
unfolding check_replay
check_replay_old hashes entry first salt w other old = rw (other, old) refl

pub add_twice :
    (n : ℕ) (c : ReplayCache) (id salt : List ℕ)
    → Fits n c
    → (add (add (some c) id salt).1 id salt).0 ≡ false
add_twice n c id salt f =
    let h = pre_hash id salt in
    rw (add_enabled n c id salt f, add_enabled n _ id salt (add_hash-Fits n h c f))
      (Recalls-refused n n h _ (add_hash-starts n h c f))
