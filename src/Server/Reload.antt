-- ===== src/Server/Reload.antt =====
-- cmd/outline-ss-server/main.go: what a load keeps of the server, and what a refused one leaves.
use outline_ss_server.Prelude.{ℕ, ◌≡◌, refl, inl, inr, Option, none, some, List, [], ◌∷◌, ℤ, length}
use outline_ss_server.Prelude.Maps.{nat_eq, get, keys, elem, Once}
use outline_ss_server.Net.GoError.{GoError, wrapped}
use outline_ss_server.Cipher.{CipherEntry}
use outline_ss_server.Server.{
  KeyConfig, Server, Env, returned, failed, count_of, retire, read_keys, change_ports,
  update_ciphers, apply_config, load_config,
}
use outline_ss_server.Server.Changes.{read_keys-Built, key_cases}
use outline_ss_server.Server.Ports.{ending_cases}
use outline_ss_server.Server.Load.{Ranges}
use outline_ss_server.Server.Sound.{
  Sound, retire-Once, read_keys-Once, change_ports-Sound, update_ciphers-Sound, started_absent,
}

module _ {Key : Type 0} (env : Env Key) where
  counted : (n : ℕ × ℕ) (s : Server Key) → Sound s → Sound (record s { num_access_keys = n })
  counted n s sound = record {
    tidy = record {
      opened = sound.tidy.opened;
      owned = sound.tidy.owned;
      below = sound.tidy.below;
    };
    once = sound.once;
  }

  -- If no port is served twice and the open sockets are exactly the two of each port that is served,
  -- then that is so again after a configuration is loaded without an error.
  pub load_config-Sound :
      (r : Ranges env) (ks : List KeyConfig) (s : Server Key)
      → Sound s
      → (load_config env (inr ks) s).0 ≡ returned
      → Sound (load_config env (inr ks) s).1
  unfolding load_config count_of get elem keys Once
  load_config-Sound r ks s sound h = elim (key_cases (read_keys env ks [] [])) [
    | inl (e, bad) ↦ cc (rw (bad, load_config) at h)
    | inr ((changes, ciphers), made) ↦
        let b = λ (q : ℕ). read_keys-Built env q ks [] changes [] ciphers made in
        let all_changes = retire (env.range (keys s.ports)) changes in
        let run = change_ports env (env.range (keys all_changes)) all_changes s in
        elim (ending_cases run.0) [
          | inr (inl (x, bad)) ↦ cc (rw (made, load_config, apply_config, bad) at h)
          | inr (inr bad) ↦ cc (rw (made, load_config, apply_config, bad) at h)
          | inl done ↦
              let distinct : Once (keys all_changes) =
                retire-Once (env.range (keys s.ports)) changes
                  (read_keys-Once env ks [] changes [] ciphers made tt) in
              let changed : Sound run.1 =
                change_ports-Sound env (env.range (keys all_changes)) all_changes s
                  (r.once (keys all_changes) distinct)
                  (λ q _. started_absent env r ks changes s q sound.once (b q).count (b q).changed)
                  done sound in
              let after =
                update_ciphers-Sound env (env.range (keys ciphers)) ciphers run.1 changed in
              elim (ending_cases (update_ciphers env (env.range (keys ciphers)) ciphers run.1).0) [
                | inr (inl (x, bad)) ↦ cc (rw (made, load_config, apply_config, done, bad) at h)
                | inr (inr bad) ↦ cc (rw (made, load_config, apply_config, done, bad) at h)
                | inl fine ↦
                    rw (made, load_config, apply_config, done, fine)
                      (counted (length ks, length (keys ciphers)) _ after)
              ]
        ]
  ]

  -- The error of the first key that no cipher can be made of.
  unfoldable pub bad_key : List KeyConfig → Option GoError
  bad_key [] = none
  bad_key (k ∷ ks) = elim (env.new_encryption_key k.cipher k.secret) [
    | inl e ↦ some e
    | inr key ↦ bad_key ks
  ]

  pub read_keys-bad :
      (ks : List KeyConfig) (m : List (ℕ × ℤ)) (c : List (ℕ × List (CipherEntry Key))) (e : GoError)
      → bad_key ks ≡ some e
      → read_keys env ks m c ≡ inl e
  unfolding read_keys bad_key
  read_keys-bad [] m c e h = cc
  read_keys-bad (k ∷ ks) m c e h = elim (key_cases (env.new_encryption_key k.cipher k.secret)) [
    | inl (x, bad) ↦
        let same : x ≡ e = (let f : some x ≡ some e = (rw (bad, bad_key) at h) in cc) in
        rw (bad, read_keys, same) refl
    | inr (key, made) ↦ rw (made, read_keys) (read_keys-bad ks _ _ e (rw (made, bad_key) at h))
  ]

  pub read_keys-good :
      (ks : List KeyConfig) (m : List (ℕ × ℤ)) (c : List (ℕ × List (CipherEntry Key)))
      → bad_key ks ≡ none
      → (r : List (ℕ × ℤ) × List (ℕ × List (CipherEntry Key))) × (read_keys env ks m c ≡ inr r)
  unfolding read_keys bad_key
  read_keys-good [] m c h = ((m, c), refl)
  read_keys-good (k ∷ ks) m c h = elim (key_cases (env.new_encryption_key k.cipher k.secret)) [
    | inl (x, bad) ↦ cc (rw (bad, bad_key) at h)
    | inr (key, made) ↦ rw (made, read_keys) (read_keys-good ks _ _ (rw (made, bad_key) at h))
  ]

  -- A configuration that cannot be read, or that has a key no cipher can be made of, is refused with
  -- that error, and the server is as it was: no port has been started, removed or given new ciphers.
  pub load_config-refused :
      (s : Server Key)
      → ((e : GoError)
          → load_config env (inl e) s ≡ (failed (wrapped "failed to load config" e), s))
        × ((ks : List KeyConfig) (e : GoError)
            → bad_key ks ≡ some e
            → load_config env (inr ks) s
              ≡ (failed (wrapped "failed to create encryption key" e), s))
  unfolding load_config
  load_config-refused s = (λ e. refl, λ ks e h. rw (read_keys-bad ks [] [] e h, load_config) refl)
