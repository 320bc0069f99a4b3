-- ===== src/Tcp/History.antt =====
-- What a connection of service/tcp.go does to the replay cache.
use outline_ss_server.Prelude.{
  ℕ, ◌≡◌, refl, ap, sym, ◌∙◌, inl, inr, ◌⊎◌, true, Option, none, some, List, ◌∷◌, leb, length, take,
  arith, Bool-cases,
}
use outline_ss_server.Net.GoError.{ConnectionError}
use outline_ss_server.Net.Text.{NetAddr}
use outline_ss_server.IpInfo.{IpInfo, get_ip_info_from_addr}
use outline_ss_server.Salt.{Hashes, is_server_salt}
use outline_ss_server.Replay.{add}
use outline_ss_server.Cipher.{Addr, Shadowsocks, CipherEntry, mark_used_by_client_ip}
use outline_ss_server.Cipher.Recency.{mark_used-store}
use outline_ss_server.Tcp.State.{
  World, Outcome, done, panic, next, read_full, Service, Read, bytes, short, drain, cipher_search,
  opened, no_bytes, ◌>>=◌, pure,
}
use outline_ss_server.Tcp.Auth.{
  KeySearch, missed, hit, Session, AuthResult, accepted, refused, remote_ip, find_entry,
  find_access_key, search_bytes, use_entry, judge, check_replay, authenticate,
}
use outline_ss_server.Tcp.Checks.{check_replay_accepts}
use outline_ss_server.Tcp.Dial.{Dialed, connected, dial_failed}
use outline_ss_server.Tcp.Handler.{
  Visit, Request, bad_request, target, after_dial, after_request, after_auth, serve,
  handle_connection, finish, serve_one, absorb_probe, proxy_connection, relay, get_proxy_request,
  handle,
}
use outline_ss_server.Tcp.Trace.{started, set_deadlines_lem}

module _ {Key : Type 0} where
  -- The search leaves the cache alone, and takes the salt from the first bytes by its key's salt size.
  pub record Found (ss : Shadowsocks Key) (w : World Key) (p : Outcome KeySearch × World Key)
      : Type 0 where
    pub replay : p.1.replay ≡ w.replay
    pub salt :
        (e : ℕ) (first s : List ℕ)
        → p.0 ≡ done (hit e first s)
        → s ≡ take (ss.salt_size (p.1.ciphers.store e).crypto_key) first

  use_entry-Found :
      (ss : Shadowsocks Key) (ip : Addr) (first : List ℕ) (w : World Key) (o : Option ℕ)
      → Found ss w (use_entry ss ip w.ciphers.store first o w)
  unfolding use_entry
  use_entry-Found ss ip first w none = record { replay = refl; salt = λ e f s h. cc }
  use_entry-Found ss ip first w (some x) = record {
    replay = refl;
    salt = λ e f s h.
        let (i, k, g, _) = mark_used-store w.ciphers x ip x in
        let (same, ef, es) : (x ≡ e)
            × (first ≡ f)
            × (take (ss.salt_size (w.ciphers.store x).crypto_key) first ≡ s) =
          (ground arith, ground arith, ground arith) in
        sym es
        ∙ ap (λ key. take (ss.salt_size key) first) (sym k)
        ∙ ap
            (λ y.
              take (ss.salt_size ((mark_used_by_client_ip w.ciphers x ip).store y).crypto_key)
                first)
            same
        ∙ ap (take (ss.salt_size ((mark_used_by_client_ip w.ciphers x ip).store e).crypto_key)) ef;
  }

  entry-Found :
      (ss : Shadowsocks Key) (ip : Addr) (first : List ℕ) (w : World Key) (o : Outcome (Option ℕ))
      → Found ss w (next (use_entry ss ip w.ciphers.store first) (o, w))
  entry-Found ss ip first w (done o) = use_entry-Found ss ip first w o
  entry-Found ss ip first w panic = record { replay = refl; salt = λ e f s h. cc }

  bytes-Found :
      (ss : Shadowsocks Key) (ip : Addr) (es : List (Option ℕ)) (w : World Key) (r : Read)
      → Found ss w (search_bytes ss ip es r w)
  unfolding search_bytes
  bytes-Found ss ip es w (short e) = record { replay = refl; salt = λ e f s h. cc }
  bytes-Found ss ip es w (bytes first) =
      entry-Found ss ip first w (find_entry ss w.ciphers.store first es)

  search-Found :
      (ss : Shadowsocks Key) (ip : Addr) (w : World Key) → Found ss w (find_access_key ss ip w)
  unfolding find_access_key read_full
  search-Found ss ip w = elim (Bool-cases (leb 50 (length w.conn.input))) [
    | inl enough ↦
        rw (enough, find_access_key, read_full)
          (let f = bytes-Found ss ip _ _ (bytes (take 50 w.conn.input)) in
            record { replay = f.replay; salt = f.salt })
    | inr less ↦
        rw (less, find_access_key, read_full) (record { replay = refl; salt = λ e f s h. cc })
  ]

  -- What the authenticator does to the cache: nothing, or one handshake is asked about and added; and an
  -- accepted one was new, with the salt that its first bytes have for its key.
  pub record Asked (svc : Service Key) (w : World Key) (p : Outcome (AuthResult Key) × World Key)
      : Type 0 where
    pub effect :
        (p.1.replay ≡ w.replay)
        ⊎ ((id : List ℕ) × (salt : List ℕ) × (p.1.replay ≡ (add w.replay id salt).1))
    pub new :
        (id : List ℕ) (session : Session Key)
        → p.0 ≡ done (accepted id session)
        → let salt = take (svc.shadowsocks.salt_size session.key) session.first_bytes in
          ((add w.replay id salt).0 ≡ true) × (p.1.replay ≡ (add w.replay id salt).1)

  check_effect :
      (hashes : Hashes) (entry : CipherEntry Key) (first salt : List ℕ) (w : World Key)
      → ((check_replay hashes entry first salt w).1.replay ≡ w.replay)
        ⊎ ((check_replay hashes entry first salt w).1.replay ≡ (add w.replay entry.id salt).1)
  unfolding check_replay
  check_effect hashes entry first salt w =
      elim (Bool-cases (is_server_salt hashes entry.salt_generator salt)) [
        | inl server ↦ rw server (inl refl)
        | inr other ↦ elim (Bool-cases (add w.replay entry.id salt).0) [
          | inl fresh ↦ rw (other, fresh) (inr refl)
          | inr old ↦ rw (other, old) (inr refl)
        ]
      ]

  pub judge-Asked :
      (svc : Service Key) (w : World Key) (p : Outcome KeySearch × World Key)
      → Found svc.shadowsocks w p
      → Asked svc w (next (judge svc) p)
  unfolding judge
  judge-Asked svc w (panic, w') f = record { effect = inl f.replay; new = λ id session h. cc }
  judge-Asked svc w (done (missed err), w') f = record {
    effect = inl f.replay;
    new = λ id session h. cc;
  }
  judge-Asked svc w (done (hit e first salt), w') f =
      let entry = w'.ciphers.store e in
      let w₁ : World Key = record w' { log = cipher_search true ∷ w'.log } in
      let same : w'.replay ≡ w.replay = f.replay in
      record {
        effect = elim (check_effect svc.hashes entry first salt w₁) [
          | inl k ↦ inl (k ∙ same)
          | inr k ↦ inr (entry.id, salt, k ∙ ap (λ r. (add r entry.id salt).1) same)
        ];
        new = λ id session h.
            let (server, fresh, id_eq, session_eq, world) =
              check_replay_accepts svc.hashes entry first salt w₁ id session h in
            let salt_eq : salt ≡ take (svc.shadowsocks.salt_size session.key) session.first_bytes =
              f.salt e first salt refl
              ∙ ap (λ (x : Session Key). take (svc.shadowsocks.salt_size x.key) x.first_bytes)
                  (sym session_eq) in
            let asked : add w'.replay entry.id salt
                ≡ add w.replay id
                    (take (svc.shadowsocks.salt_size session.key) session.first_bytes) =
              rw (same, ← id_eq, salt_eq) refl in
            (
              sym (ap (λ r. r.0) asked) ∙ fresh,
              ap (λ (x : World Key). x.replay) world ∙ ap (λ r. r.1) asked,
            );
      }

  pub authenticate-Asked :
      (svc : Service Key) (remote : NetAddr) (w : World Key)
      → Asked svc w (authenticate svc remote w)
  unfolding authenticate
  authenticate-Asked svc remote w =
      judge-Asked svc w _ (search-Found svc.shadowsocks (remote_ip svc.parse_addr_port remote) w)

module _ {Key : Type 0} (svc : Service Key) (visit : Visit Key) where
  dial_keeps :
      (w : World Key) (id : List ℕ) (d : Dialed)
      → (◌>>=◌ {B = List ℕ × Option ConnectionError}
          (after_dial visit d)
          (λ err. pure (id, err))
          w).1.replay
        ≡ w.replay
  unfolding after_dial relay
  dial_keeps w id (dial_failed e) = refl
  dial_keeps w id (connected a) = refl

  request_keeps :
      (w : World Key) (id : List ℕ) (r : Request) → (after_request visit id r w).1.replay ≡ w.replay
  unfolding after_request proxy_connection drain
  request_keeps w id (bad_request e n) = refl
  request_keeps w id (target t n) = dial_keeps _ id (visit.dial_stream t)

  auth_keeps : (w : World Key) (a : AuthResult Key) → (after_auth svc visit a w).1.replay ≡ w.replay
  unfolding after_auth serve absorb_probe drain get_proxy_request
  auth_keeps w (refused id err) = refl
  auth_keeps w (accepted id session) = request_keeps _ id (visit.read_request session w.conn.input)

  outcome_keeps :
      (p : Outcome (AuthResult Key) × World Key)
      → (next (after_auth svc visit) p).1.replay ≡ p.1.replay
  outcome_keeps (done a, w) = auth_keeps w a
  outcome_keeps (panic, w) = refl

  finish_keeps :
      (info : IpInfo) (p : Outcome (List ℕ × Option ConnectionError) × World Key)
      → (next (finish info visit) p).1.replay ≡ p.1.replay
  unfolding finish
  finish_keeps info (done r, w) = refl
  finish_keeps info (panic, w) = refl

  -- Nothing but the authenticator changes the cache.
  pub serve_one-replay :
      (w : World Key)
      → (serve_one svc visit w).replay
        ≡ (authenticate svc visit.remote (started svc visit w)).1.replay
  unfolding serve_one handle handle_connection finish
  serve_one-replay w =
      let info = (get_ip_info_from_addr svc.text svc.ip2info visit.remote).0 in
      let w₀ : World Key = record w { metrics = no_bytes; log = opened info ∷ w.log } in
      finish_keeps info (handle_connection svc visit w₀)
      ∙ ap (λ p. (next (λ _. authenticate svc visit.remote >>= after_auth svc visit) p).1.replay)
          (set_deadlines_lem svc visit w₀)
      ∙ outcome_keeps (authenticate svc visit.remote (started svc visit w))
