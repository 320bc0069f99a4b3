-- ===== src/Tcp/Replays.antt =====
-- Which connections the authenticator of service/tcp.go accepts.
use outline_ss_server.Prelude.{
  ℕ, ◌≤◌, ◌≡◌, refl, ap, ◌∙◌, true, false, Option, none, some, List, [], ◌∷◌, length, take,
}
use outline_ss_server.Net.GoError.{plain, new_connection_error}
use outline_ss_server.Net.Text.{NetAddr}
use outline_ss_server.Salt.{is_server_salt}
use outline_ss_server.Replay.{ReplayCache, add}
use outline_ss_server.Replay.Recall.{Fits}
use outline_ss_server.Cipher.{
  Addr, no_addr, addr_eq, contains, snapshot_for_client_ip, mark_used_by_client_ip,
}
use outline_ss_server.Cipher.Recency.{snapshot-mark_used, mark_used-store}
use outline_ss_server.Tcp.State.{cipher_search, World, Outcome, done, bind-done, Service}
use outline_ss_server.Tcp.Auth.{
  Session, AuthResult, accepted, refused, remote_ip, find_entry, find_access_key, check_replay,
  judge, authenticate,
}
use outline_ss_server.Tcp.Search.{after_search, find_access_key_steps, search_result}
use outline_ss_server.Tcp.Checks.{
  check_replay_accepts, find_entry-opens, find_entry-head, check_replay_old, add_twice,
}

module _ {Key : Type 0} (svc : Service Key) (remote : NetAddr) where
  abbrev ip : Addr
  ip = remote_ip svc.parse_addr_port remote

  -- The trial decryption of the first 50 bytes of the input ends with a result.
  abbrev pub Searches : World Key → Option ℕ → Type 0
  Searches w o =
      (50 ≤ length w.conn.input)
      × (find_entry svc.shadowsocks w.ciphers.store (take 50 w.conn.input)
            (snapshot_for_client_ip w.ciphers (remote_ip svc.parse_addr_port remote))
          ≡ done o)

  abbrev pub salt_of : World Key → ℕ → List ℕ
  salt_of w e =
      take (svc.shadowsocks.salt_size (w.ciphers.store e).crypto_key) (take 50 w.conn.input)

  authenticate_search :
      (w : World Key) (o : Option ℕ)
      → Searches w o
      → authenticate svc remote w
        ≡ judge svc
            (search_result svc.shadowsocks w.ciphers (take 50 w.conn.input) o)
            (after_search svc.shadowsocks w ip o)
  unfolding authenticate
  authenticate_search w o (l, e) =
      bind-done (find_access_key svc.shadowsocks ip) (judge svc) w
        (find_access_key_steps svc.shadowsocks ip w o l e)

  -- Where no key authenticates the bytes, the connection is refused with ERR_CIPHER, and the cipher
  -- list and the replay cache stay as they were.
  pub authenticate_no_key :
      (w : World Key)
      → Searches w none
      → (((authenticate svc remote w).0
            ≡ done (
                refused [] (
                  new_connection_error "ERR_CIPHER" "Failed to find a valid cipher"
                    (some (plain "could not find valid TCP cipher")))))
          × ((authenticate svc remote w).1.ciphers ≡ w.ciphers)
          × ((authenticate svc remote w).1.replay ≡ w.replay))
  unfolding judge
  authenticate_no_key w s = rw (authenticate_search w none s) (refl, refl, refl)

  -- A handshake whose salt the server itself made is refused with ERR_REPLAY_SERVER, under the ID of
  -- the key that it was found under, and the replay cache is not asked: it stays as it was.
  pub authenticate_reflected :
      (w : World Key) (e : ℕ)
      → Searches w (some e)
      → is_server_salt svc.hashes (w.ciphers.store e).salt_generator (salt_of w e) ≡ true
      → ((authenticate svc remote w).0
          ≡ done (
              refused
                (w.ciphers.store e).id
                (new_connection_error "ERR_REPLAY_SERVER" "Replay detected" none)))
        × ((authenticate svc remote w).1.replay ≡ w.replay)
  unfolding judge check_replay
  authenticate_reflected w e s r =
      let (i, _, g, _) = mark_used-store w.ciphers e ip e in
      rw (authenticate_search w (some e) s) (rw (g, r, i, check_replay) (refl, refl))

  -- A connection is accepted only under the entry that the search found, with its key, if the
  -- server did not make the salt and the replay cache calls the handshake new; the cache then has it.
  pub authenticate_accepted :
      (w : World Key) (e : ℕ) (id : List ℕ) (session : Session Key)
      → Searches w (some e)
      → (authenticate svc remote w).0 ≡ done (accepted id session)
      → (id ≡ (w.ciphers.store e).id)
        × (session.key ≡ (w.ciphers.store e).crypto_key)
        × (session.first_bytes ≡ take 50 w.conn.input)
        × (is_server_salt svc.hashes (w.ciphers.store e).salt_generator (salt_of w e) ≡ false)
        × ((add w.replay (w.ciphers.store e).id (salt_of w e)).0 ≡ true)
        × ((authenticate svc remote w).1.replay
            ≡ (add w.replay (w.ciphers.store e).id (salt_of w e)).1)
        × ((authenticate svc remote w).1.ciphers
            ≡ mark_used_by_client_ip w.ciphers e (remote_ip svc.parse_addr_port remote))
  unfolding judge check_replay
  authenticate_accepted w e id session s h =
      let (i, k, g, _) = mark_used-store w.ciphers e ip e in
      let w₁ = record (after_search svc.shadowsocks w ip (some e)) {
        log = cipher_search true ∷ w.log;
      } in
      let (server, fresh, id_eq, session_eq, world) =
        check_replay_accepts svc.hashes ((mark_used_by_client_ip w.ciphers e ip).store e)
          (take 50 w.conn.input) (salt_of w e) w₁ id session
          (rw (authenticate_search w (some e) s) at h) in
      rw (authenticate_search w (some e) s) (
        id_eq ∙ i,
        ap (λ (x : Session Key). x.key) session_eq ∙ k,
        ap (λ (x : Session Key). x.first_bytes) session_eq,
        rw g at server,
        rw i at fresh,
        ap (λ (x : World Key). x.replay) world ∙ (rw i refl),
        ap (λ (x : World Key). x.ciphers) world,
      )

  -- The same handshake again, at once and from the same client IP, over the list and the cache that
  -- the accepted connection left, is refused with ERR_REPLAY_CLIENT under the same ID, whatever
  -- follows its first 50 bytes. The cache has a positive capacity and the client IP is known.
  pub authenticate_replayed :
      (n : ℕ) (c : ReplayCache) (w w' : World Key) (e : ℕ) (id : List ℕ) (session : Session Key)
      → w.replay ≡ some c
      → Fits n c
      → addr_eq (remote_ip svc.parse_addr_port remote) no_addr ≡ false
      → contains w.ciphers.list e ≡ true
      → Searches w (some e)
      → (authenticate svc remote w).0 ≡ done (accepted id session)
      → w'.ciphers ≡ (authenticate svc remote w).1.ciphers
      → w'.replay ≡ (authenticate svc remote w).1.replay
      → take 50 w'.conn.input ≡ take 50 w.conn.input
      → 50 ≤ length w'.conn.input
      → (authenticate svc remote w').0
        ≡ done (refused id (new_connection_error "ERR_REPLAY_CLIENT" "Replay detected" none))
  unfolding judge
  authenticate_replayed n c w w' e id session replay fits known listed s a cl' rc' same long =
      let cl₂ = mark_used_by_client_ip w.ciphers e ip in
      let acc = authenticate_accepted w e id session s a in
      let (i, k, g, _) = mark_used-store w.ciphers e ip e in
      let (i', k', g', _) = mark_used-store w'.ciphers e ip e in
      let cl : w'.ciphers ≡ cl₂ = cl' ∙ acc.6 in
      let (rest, snap) = snapshot-mark_used w.ciphers e ip listed known in
      let (p, header, un) = find_entry-opens svc.shadowsocks w.ciphers.store _ _ e s.1 in
      let search : Searches w' (some e) = (
        long,
        rw (cl, same, snap)
            (find_entry-head svc.shadowsocks cl₂.store (take 50 w.conn.input) rest e p (rw k header)
              (rw k un)),
      ) in
      let id_eq : (w'.ciphers.store e).id ≡ (w.ciphers.store e).id = rw cl i in
      let gen_eq : (w'.ciphers.store e).salt_generator ≡ (w.ciphers.store e).salt_generator =
        rw cl g in
      let salt_eq : salt_of w' e ≡ salt_of w e = rw (cl, same, k) refl in
      let replay_eq : w'.replay ≡ (add (some c) (w.ciphers.store e).id (salt_of w e)).1 =
        rc' ∙ acc.5 ∙ ap (λ r. (add r (w.ciphers.store e).id (salt_of w e)).1) replay in
      ap (λ (r : Outcome (AuthResult Key) × World Key). r.0)
        (authenticate_search w' (some e) search)
      ∙ check_replay_old svc.hashes ((mark_used_by_client_ip w'.ciphers e ip).store e)
          (take 50 w'.conn.input) (salt_of w' e) _ (rw (g', gen_eq, salt_eq) acc.3)
          (rw (i', id_eq, salt_eq, replay_eq) (add_twice n c _ _ fits))
      ∙ (rw (i', id_eq, acc.0) refl)
