-- ===== src/Tcp/Frame.antt =====
-- What the authenticator of service/tcp.go leaves alone: the reads are all counted, and it writes
-- one line to the log.
use outline_ss_server.Prelude.{
  ℕ, ◌+◌, ◌≡◌, refl, ap, sym, ◌∙◌, inl, inr, Bool, true, false, Option, none, some, List, ◌∷◌, leb,
  arith, length, Bool-cases, length-drop,
}
use outline_ss_server.Net.Text.{NetAddr}
use outline_ss_server.Salt.{Hashes, is_server_salt}
use outline_ss_server.Replay.{ReplayCache, add}
use outline_ss_server.Cipher.{Addr, Shadowsocks, CipherEntry}
use outline_ss_server.Tcp.State.{
  cipher_search, World, Outcome, done, panic, M, next, read_full, Service, Read, bytes, short,
}
use outline_ss_server.Tcp.Auth.{
  KeySearch, missed, hit, AuthResult, remote_ip, find_entry, find_access_key, search_bytes,
  use_entry, judge, check_replay, authenticate,
}

outcome_ne : {A : Type 0} {a : A} → panic ≡ done a → ⊥
outcome_ne e = cc

module _ {Key : Type 0} where
  -- The bytes that the client has sent and is yet to send.
  abbrev pub total : World Key → ℕ
  total w = w.metrics.client_proxy + length w.conn.input

  pub record Framed (w w' : World Key) : Type 0 where
    pub ending : w'.conn.ending ≡ w.conn.ending
    pub sent : total w' ≡ total w
    pub proxy_target : w'.metrics.proxy_target ≡ w.metrics.proxy_target
    pub target_proxy : w'.metrics.target_proxy ≡ w.metrics.target_proxy
    pub proxy_client : w'.metrics.proxy_client ≡ w.metrics.proxy_client

  Framed-refl : (w : World Key) → Framed w w
  Framed-refl w = record {
    ending = refl;
    sent = refl;
    proxy_target = refl;
    target_proxy = refl;
    proxy_client = refl;
  }

  Framed-trans : {u v w : World Key} → Framed u v → Framed v w → Framed u w
  Framed-trans f g = record {
    ending = g.ending ∙ f.ending;
    sent = g.sent ∙ f.sent;
    proxy_target = g.proxy_target ∙ f.proxy_target;
    target_proxy = g.target_proxy ∙ f.target_proxy;
    proxy_client = g.proxy_client ∙ f.proxy_client;
  }

  -- A step that frames its world and does not write to the log.
  record Quiet {A : Type 0} (m : M Key A) : Type 0 where
    framed : (w : World Key) → Framed w (m w).1
    log : (w : World Key) → (m w).1.log ≡ w.log

  Quiet-next :
      {A B : Type 0} (w : World Key) (p : Outcome A × World Key) (f : A → M Key B)
      → Framed w p.1
      → p.1.log ≡ w.log
      → ((a : A) → Quiet (f a))
      → Framed w (next f p).1 × ((next f p).1.log ≡ w.log)
  Quiet-next w (done a, w') f fr l q = (Framed-trans fr ((q a).framed w'), (q a).log w' ∙ l)
  Quiet-next w (panic, w') f fr l q = (fr, l)

  read_full-Framed : (n : ℕ) (w : World Key) → Framed w (read_full n w).1
  unfolding read_full
  read_full-Framed n w = elim (Bool-cases (leb n (length w.conn.input))) [
    | inl enough ↦
        rw (enough, read_full)
          (record {
            ending = refl;
            sent = ground (arith, length-drop n w.conn.input);
            proxy_target = refl;
            target_proxy = refl;
            proxy_client = refl;
          })
    | inr less ↦
        rw (less, read_full)
          (record {
            ending = refl;
            sent = omega arith;
            proxy_target = refl;
            target_proxy = refl;
            proxy_client = refl;
          })
  ]

  read_full-Quiet : (n : ℕ) → Quiet (read_full {Key = Key} n)
  unfolding read_full
  read_full-Quiet n = record { framed = read_full-Framed n; log = λ w. ground arith }

  use_entry-Quiet :
      (ss : Shadowsocks Key) (ip : Addr) (store : ℕ → CipherEntry Key) (first : List ℕ)
      (o : Option ℕ)
      → Quiet (use_entry ss ip store first o)
  unfolding use_entry
  use_entry-Quiet ss ip store first none = record { framed = λ w. Framed-refl w; log = λ w. refl }
  use_entry-Quiet ss ip store first (some e) = record {
    framed = λ w. record {
      ending = refl;
      sent = refl;
      proxy_target = refl;
      target_proxy = refl;
      proxy_client = refl;
    };
    log = λ w. refl;
  }

  search_bytes-Quiet :
      (ss : Shadowsocks Key) (ip : Addr) (es : List (Option ℕ)) (r : Read)
      → Quiet (search_bytes ss ip es r)
  unfolding search_bytes
  search_bytes-Quiet ss ip es (short err) = record { framed = λ w. Framed-refl w; log = λ w. refl }
  search_bytes-Quiet ss ip es (bytes first) = record {
    framed = λ w. (found w).0;
    log = λ w. (found w).1;
  }
    where
      found :
          (w : World Key)
          → Framed w (search_bytes ss ip es (bytes first) w).1
            × ((search_bytes ss ip es (bytes first) w).1.log ≡ w.log)
      found w =
          Quiet-next w (find_entry ss w.ciphers.store first es, w)
            (use_entry ss ip w.ciphers.store first) (Framed-refl w) refl
            (use_entry-Quiet ss ip w.ciphers.store first)

  find_access_key_quiet :
      (ss : Shadowsocks Key) (ip : Addr) (w : World Key)
      → Framed w (find_access_key ss ip w).1 × ((find_access_key ss ip w).1.log ≡ w.log)
  unfolding find_access_key
  find_access_key_quiet ss ip w =
      Quiet-next w (read_full 50 w) (search_bytes ss ip _) ((read_full-Quiet 50).framed w)
        ((read_full-Quiet 50).log w) (search_bytes-Quiet ss ip _)

  replaced : (w : World Key) (r : Option ReplayCache) → Framed w (record w { replay = r })
  replaced w r = record {
    ending = refl;
    sent = refl;
    proxy_target = refl;
    target_proxy = refl;
    proxy_client = refl;
  }

  check_replay_quiet :
      (hashes : Hashes) (entry : CipherEntry Key) (first salt : List ℕ) (w : World Key)
      → Framed w (check_replay hashes entry first salt w).1
        × ((check_replay hashes entry first salt w).1.log ≡ w.log)
  unfolding check_replay
  check_replay_quiet hashes entry first salt w =
      elim (Bool-cases (is_server_salt hashes entry.salt_generator salt)) [
        | inl server ↦ rw server (Framed-refl w, refl)
        | inr other ↦ elim (Bool-cases (add w.replay entry.id salt).0) [
          | inl fresh ↦ rw (other, fresh) (replaced w _, refl)
          | inr old ↦ rw (other, old) (replaced w _, refl)
        ]
      ]

  logged : (w : World Key) (b : Bool) → Framed w (record w { log = cipher_search b ∷ w.log })
  logged w b = record {
    ending = refl;
    sent = refl;
    proxy_target = refl;
    target_proxy = refl;
    proxy_client = refl;
  }

  judge_frame :
      (svc : Service Key) (s : KeySearch) (w : World Key)
      → Framed w (judge svc s w).1
        × ((b : Bool) × ((judge svc s w).1.log ≡ cipher_search b ∷ w.log))
  unfolding judge
  judge_frame svc (missed err) w = (logged w false, (false, refl))
  judge_frame svc (hit e first salt) w =
      let (f, l) =
        check_replay_quiet svc.hashes (w.ciphers.store e) first salt
          (record w { log = cipher_search true ∷ w.log }) in
      (Framed-trans (logged w true) f, (true, l))

  judged :
      (svc : Service Key) (w w' : World Key) (p : Outcome KeySearch × World Key)
      (a : AuthResult Key)
      → Framed w p.1
      → p.1.log ≡ w.log
      → next (judge svc) p ≡ (done a, w')
      → Framed w w' × ((b : Bool) × (w'.log ≡ cipher_search b ∷ w.log))
  judged svc w w' (done s, v) a f l e =
      let (g, (b, m)) = judge_frame svc s v in
      let after : (judge svc s v).1 ≡ w' =
        ap (λ (q : Outcome (AuthResult Key) × World Key). q.1) e in
      (
        Framed-trans f (rw after at g),
        (b, ap (λ (x : World Key). x.log) (sym after) ∙ m ∙ ap (◌∷◌ (cipher_search b)) l),
      )
  judged svc w w' (panic, v) a f l e =
      absurd (outcome_ne (ap (λ (q : Outcome (AuthResult Key) × World Key). q.0) e))

  -- An authentication that ends has counted every byte that it read, and has logged one search.
  pub authenticate_frame :
      (svc : Service Key) (remote : NetAddr) (w w' : World Key) (a : AuthResult Key)
      → authenticate svc remote w ≡ (done a, w')
      → Framed w w' × ((b : Bool) × (w'.log ≡ cipher_search b ∷ w.log))
  unfolding authenticate
  authenticate_frame svc remote w w' a e =
      let (f, l) = find_access_key_quiet svc.shadowsocks (remote_ip svc.parse_addr_port remote) w in
      judged svc w w' (find_access_key svc.shadowsocks (remote_ip svc.parse_addr_port remote) w) a f
        l e
