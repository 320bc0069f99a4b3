-- ===== src/Tcp/Race/Shared.antt =====
-- What one step of an authenticator of service/tcp.go does to the cipher list and the replay cache.
use outline_ss_server.Prelude.{
  ℕ, ◌≡◌, refl, ap, sym, ◌∙◌, inl, inr, ◌⊎◌, true, Option, none, some, List, leb, length, take,
  arith, Bool-cases,
}
use outline_ss_server.Net.Text.{NetAddr}
use outline_ss_server.Cipher.{CipherList}
use outline_ss_server.Cipher.Recency.{mark_used-store}
use outline_ss_server.Salt.{is_server_salt}
use outline_ss_server.Replay.{add}
use outline_ss_server.Tcp.State.{World, Outcome, done, panic, Service, bytes, short, read_full}
use outline_ss_server.Tcp.Auth.{
  KeySearch, missed, hit, AuthResult, accepted, refused, remote_ip, find_entry, use_entry, judge,
  check_replay,
}
use outline_ss_server.Tcp.History.{Found, Asked, judge-Asked}
use outline_ss_server.Tcp.Race.{
  Stage, starting, reading, searching, using, judging, finished, resume, run_stage, accepted_by,
  asks,
}

module _ {Key : Type 0} (svc : Service Key) (keys : ℕ → Key) where
  -- The elements have these keys.
  abbrev pub HasKeys : CipherList Key → Type 0
  HasKeys cl = (e : ℕ) → (cl.store e).crypto_key ≡ keys e

  -- The salt that goes to the replay check is the one that the first bytes have for the key.
  abbrev pub HasSalt : Stage Key → Type 0
  HasSalt (judging (hit e first salt)) = salt ≡ take (svc.shadowsocks.salt_size (keys e)) first
  HasSalt _ = Unit {0}

  pub record Sound (p : World Key × Stage Key) : Type 0 where
    pub ciphers : HasKeys p.0.ciphers
    pub salt : HasSalt p.1

  -- The cache after a step: as before, or asked once, by a step that `asks` names.
  abbrev pub Effect : World Key → Stage Key → World Key → Type 0
  Effect w stage w' =
      (w'.replay ≡ w.replay)
      ⊎ ((asks svc w.ciphers.store stage ≡ true)
          × (id : List ℕ) × (salt : List ℕ) × (w'.replay ≡ (add w.replay id salt).1))

  pub record Step (w : World Key) (stage : Stage Key) (p : World Key × Stage Key) : Type 0 where
    pub sound : Sound p
    pub effect : Effect w stage p.0

  quiet :
      (w w' : World Key) (stage stage' : Stage Key)
      → HasKeys w'.ciphers
      → w'.replay ≡ w.replay
      → HasSalt stage'
      → Step w stage (w', stage')
  quiet w w' stage stage' k r s = record {
    sound = record { ciphers = k; salt = s };
    effect = inl r;
  }

  use_entry-Step :
      (remote : NetAddr) (w : World Key) (first : List ℕ) (o : Option ℕ)
      → HasKeys w.ciphers
      → Step w (using first o) (run_stage svc remote (using first o) w)
  unfolding run_stage use_entry
  use_entry-Step remote w first none k = quiet w w _ _ k refl tt
  use_entry-Step remote w first (some e) k =
      let ip = remote_ip svc.parse_addr_port remote in
      quiet w _ _ _ (λ x. (mark_used-store w.ciphers e ip x).1 ∙ k x) refl
        (ap (λ key. take (svc.shadowsocks.salt_size key) first) (k e))

  search-Step :
      (w : World Key) (stage : Stage Key) (first : List ℕ) (o : Outcome (Option ℕ))
      → HasKeys w.ciphers
      → Step w stage (w, resume (using first) o)
  search-Step w stage first (done o) k = quiet w w stage _ k refl tt
  search-Step w stage first panic k = quiet w w stage _ k refl tt

  read-Step :
      (remote : NetAddr) (w : World Key) (ciphers : List (Option ℕ))
      → HasKeys w.ciphers
      → Step w (reading ciphers) (run_stage svc remote (reading ciphers) w)
  unfolding run_stage read_full
  read-Step remote w ciphers k = elim (Bool-cases (leb 50 (length w.conn.input))) [
    | inl enough ↦ rw (enough, run_stage, read_full) (quiet w _ _ _ k refl tt)
    | inr less ↦ rw (less, run_stage, read_full) (quiet w _ _ _ k refl tt)
  ]

  hit-Found :
      (w : World Key) (e : ℕ) (first salt : List ℕ)
      → HasKeys w.ciphers
      → HasSalt (judging (hit e first salt))
      → Found svc.shadowsocks w (done (hit e first salt), w)
  hit-Found w e first salt k s = record {
    replay = refl;
    salt = λ e' f s' h.
        let (same, ef, es) : (e ≡ e') × (first ≡ f) × (salt ≡ s') =
          (ground arith, ground arith, ground arith) in
        sym es
        ∙ s
        ∙ ap (λ x. take (svc.shadowsocks.salt_size (keys x)) first) same
        ∙ ap (take (svc.shadowsocks.salt_size (keys e'))) ef
        ∙ ap (λ key. take (svc.shadowsocks.salt_size key) f) (sym (k e'));
  }

  judge_keeps : (w : World Key) (s : KeySearch) → (judge svc s w).1.ciphers ≡ w.ciphers
  unfolding judge check_replay
  judge_keeps w (missed err) = refl
  judge_keeps w (hit e first salt) =
      elim (Bool-cases (is_server_salt svc.hashes (w.ciphers.store e).salt_generator salt)) [
        | inl server ↦ rw server refl
        | inr other ↦ elim (Bool-cases (add w.replay (w.ciphers.store e).id salt).0) [
          | inl fresh ↦ rw (other, fresh) refl
          | inr old ↦ rw (other, old) refl
        ]
      ]

  -- A salt of the server does not reach the cache; any other is put to it once.
  judge-Effect :
      (w : World Key) (e : ℕ) (first salt : List ℕ)
      → Effect w (judging (hit e first salt)) (judge svc (hit e first salt) w).1
  unfolding judge check_replay
  judge-Effect w e first salt =
      elim (Bool-cases (is_server_salt svc.hashes (w.ciphers.store e).salt_generator salt)) [
        | inl server ↦ inl (rw server refl)
        | inr other ↦ inr (
          rw other refl,
          (w.ciphers.store e).id,
          salt,
          (elim (Bool-cases (add w.replay (w.ciphers.store e).id salt).0) [
            | inl fresh ↦ rw (other, fresh) refl
            | inr old ↦ rw (other, old) refl
          ]),
        )
      ]

  judge-Step :
      (remote : NetAddr) (w : World Key) (s : KeySearch)
      → HasKeys w.ciphers
      → HasSalt (judging s)
      → Step w (judging s) (run_stage svc remote (judging s) w)
  unfolding run_stage judge
  judge-Step remote w (missed err) k s = quiet w _ _ _ k refl tt
  judge-Step remote w (hit e first salt) k s = record {
    sound = record { ciphers = rw (judge_keeps w (hit e first salt)) k; salt = tt };
    effect = judge-Effect w e first salt;
  }

  -- A step keeps the elements' keys, and the salts that belong to them; only a step that `asks`
  -- names touches the cache, and it asks once.
  pub run_stage-Step :
      (remote : NetAddr) (w : World Key) (stage : Stage Key)
      → Sound (w, stage)
      → Step w stage (run_stage svc remote stage w)
  unfolding run_stage
  run_stage-Step remote w starting s = quiet w w _ _ s.ciphers refl tt
  run_stage-Step remote w (reading ciphers) s = read-Step remote w ciphers s.ciphers
  run_stage-Step remote w (searching ciphers (short e)) s = quiet w w _ _ s.ciphers refl tt
  run_stage-Step remote w (searching ciphers (bytes first)) s =
      search-Step w _ first (find_entry svc.shadowsocks w.ciphers.store first ciphers) s.ciphers
  run_stage-Step remote w (using first o) s = use_entry-Step remote w first o s.ciphers
  run_stage-Step remote w (judging search) s = judge-Step remote w search s.ciphers s.salt
  run_stage-Step remote w (finished r) s = quiet w w _ _ s.ciphers refl tt

  accepted_was_new :
      (w w' : World Key) (search : KeySearch) (o : Outcome (AuthResult Key)) (id salt : List ℕ)
      → Asked svc w (o, w')
      → accepted_by svc (judging search) (finished o) ≡ some (id, salt)
      → ((add w.replay id salt).0 ≡ true) × (w'.replay ≡ (add w.replay id salt).1)
  accepted_was_new w w' search panic id salt a h = cc
  accepted_was_new w w' search (done (refused i err)) id salt a h = cc
  accepted_was_new w w' search (done (accepted i session)) id salt a h =
      let (same_id, same_salt) : (i ≡ id)
          × (take (svc.shadowsocks.salt_size session.key) session.first_bytes ≡ salt) =
        (ground arith, ground arith) in
      rw (← same_id, ← same_salt) (a.new i session refl)

  -- A step accepts only what the cache calls new, and the cache has it after the step.
  pub accepted_by-new :
      (remote : NetAddr) (w : World Key) (stage : Stage Key) (id salt : List ℕ)
      → Sound (w, stage)
      → accepted_by svc stage (run_stage svc remote stage w).1 ≡ some (id, salt)
      → ((add w.replay id salt).0 ≡ true)
        × ((run_stage svc remote stage w).0.replay ≡ (add w.replay id salt).1)
  unfolding run_stage judge
  accepted_by-new remote w starting id salt s h = cc
  accepted_by-new remote w (reading ciphers) id salt s h = cc
  accepted_by-new remote w (searching ciphers r) id salt s h = cc
  accepted_by-new remote w (using first o) id salt s h = cc
  accepted_by-new remote w (finished r) id salt s h = cc
  accepted_by-new remote w (judging (missed err)) id salt s h = cc
  accepted_by-new remote w (judging (hit e first x)) id salt s h =
      accepted_was_new w _ (hit e first x) _ id salt
        (judge-Asked svc w _ (hit-Found w e first x s.ciphers s.salt)) h
