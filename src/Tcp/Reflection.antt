-- ===== src/Tcp/Reflection.antt =====
-- What the handler of service/tcp.go does with a handshake that carries a salt of the server
-- (service/server_salt.go).
use outline_ss_server.Prelude.{
  ℕ, zero, suc, ◌≤◌, ◌≡◌, refl, ap, ◌∙◌, Bool, some, none, List, [], ◌∷◌, ◌++◌, length, take, arith,
}
use outline_ss_server.Net.GoError.{ConnectionError, new_connection_error}
use outline_ss_server.IpInfo.{get_ip_info_from_addr}
use outline_ss_server.Salt.{Random, marking, ok, get_salt}
use outline_ss_server.Salt.Marks.{is_server_salt-get_salt}
use outline_ss_server.Tcp.State.{
  no_bytes, opened, probe, closed, drained, cipher_search, client_closed, World, Outcome, done,
  bind-done, drain, Service,
}
use outline_ss_server.Tcp.Auth.{refused, authenticate}
use outline_ss_server.Tcp.Handler.{
  Visit, drain_err_to_string, handle_connection, finish, after_auth, serve_one,
}
use outline_ss_server.Tcp.Replays.{Searches, salt_of, authenticate_reflected}
use outline_ss_server.Tcp.Trace.{
  deadline_events, started, handle_connection_auth, serve_one-refused,
}

take_within : (n : ℕ) (xs ys : List ℕ) → length xs ≤ n → take (length xs) (take n (xs ++ ys)) ≡ xs
take_within n [] ys h = refl
take_within zero (x ∷ xs) ys h = absurd (omega arith)
take_within (suc n) (x ∷ xs) ys h = ap (◌∷◌ x) (take_within n xs ys (omega arith))

module _ {Key : Type 0} (svc : Service Key) (visit : Visit Key) where
  -- A refused connection leaves the cache as the authenticator does.
  refused-replay :
      (w w' : World Key) (id : List ℕ) (err : ConnectionError)
      → authenticate svc visit.remote (started svc visit w) ≡ (done (refused id err), w')
      → (serve_one svc visit w).replay ≡ w'.replay
  unfolding serve_one finish after_auth drain
  refused-replay w w' id err e =
      ap (λ (p : Outcome (Unit {0}) × World Key). p.1.replay)
        (bind-done (handle_connection svc visit)
          (finish ((get_ip_info_from_addr svc.text svc.ip2info visit.remote).0) visit) _
          (handle_connection_auth svc visit _ w' (refused id err) e))

  -- Let a marking generator have made a salt under the key of an entry of the list, from a random source
  -- that gives as many bytes as it is asked for and with an HMAC of 20 bytes; and let it have the
  -- entry's salt size, of at most 50 bytes. A connection that begins with this salt, in whatever
  -- handshake that the trial decryption finds the entry for, is refused with ERR_REPLAY_SERVER: it
  -- is drained to its end, no target is dialed, all its bytes are reported as those of a probe, it is
  -- closed under the entry's ID, and the replay cache stays as it was.
  pub serve_one_reflected :
      (read : Random) (w : World Key) (e : ℕ) (key blank salt rest : List ℕ)
      → ((k m : List ℕ) → length (svc.hashes.hmac_sha1 k m) ≡ 20)
      → ((n : ℕ) (bs : List ℕ) → read n ≡ some bs → length bs ≡ n)
      → (w.ciphers.store e).salt_generator ≡ marking key
      → get_salt svc.hashes read (marking key) blank ≡ ok salt
      → svc.shadowsocks.salt_size (w.ciphers.store e).crypto_key ≡ length blank
      → length blank ≤ 50
      → w.conn.input ≡ salt ++ rest
      → Searches svc visit.remote w (some e)
      → (b : Bool) × ((serve_one svc visit w).log
          ≡ client_closed
              ∷ client_closed
              ∷ closed
                  (get_ip_info_from_addr svc.text svc.ip2info visit.remote).0
                  visit.remote
                  (w.ciphers.store e).id
                  "ERR_REPLAY_SERVER"
                  (record no_bytes { client_proxy = length w.conn.input })
              ∷ probe "ERR_REPLAY_SERVER"
                  (drain_err_to_string w.conn.ending)
                  svc.port
                  (length w.conn.input)
              ∷ drained
              ∷ cipher_search b
              ∷ deadline_events svc visit
            ++ (opened (get_ip_info_from_addr svc.text svc.ip2info visit.remote).0 ∷ w.log))
        × ((serve_one svc visit w).replay ≡ w.replay)
  unfolding new_connection_error
  serve_one_reflected read w e key blank salt rest sized full marked made size short begins s =
      let (server, same) = is_server_salt-get_salt svc.hashes sized read full key blank salt made in
      let carried : salt_of svc visit.remote w e ≡ salt =
        rw (begins, size, ← same) (take_within 50 salt rest (omega (arith, same, short))) in
      let (refusal, kept) =
        authenticate_reflected svc visit.remote (started svc visit w) e s
          (rw (carried, marked) server) in
      let a : authenticate svc visit.remote (started svc visit w) ≡ (
        done (
            refused (w.ciphers.store e).id
              (new_connection_error "ERR_REPLAY_SERVER" "Replay detected" none)),
        (authenticate svc visit.remote (started svc visit w)).1,
      ) =
        λ i. (refusal i, (authenticate svc visit.remote (started svc visit w)).1) in
      let (b, log) = serve_one-refused svc visit w _ _ _ a in
      (b, log, refused-replay w _ _ _ a ∙ kept)
