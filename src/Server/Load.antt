-- ===== src/Server/Load.antt =====
-- What the server of cmd/outline-ss-server/main.go serves after a configuration is loaded.
use outline_ss_server.Prelude.{
  ℕ, ◌≡◌, refl, sym, ◌∙◌, inl, inr, Bool, true, false, ◌||◌, Option, none, some, List, [], ℤ, pos,
  negsuc, if◌then◌else◌, Bool-cases, Option-cases, pred,
}
use outline_ss_server.Prelude.Maps.{nat_eq, get, keys, elem, Once, elem-keys}
use outline_ss_server.Cipher.{CipherEntry}
use outline_ss_server.Server.{
  KeyConfig, SsPort, Server, Env, returned, count_of, ciphers_of, retire, read_keys, change_ports,
  apply_config, load_config,
}
use outline_ss_server.Server.Changes.{has_key, entries_of, read_keys-Built, retire_lem, key_cases}
use outline_ss_server.Server.Ports.{
  Fate, ending_cases, change_ports-Fate, refresh, update_ciphers-get,
}

-- A `range` over a map comes by each of its keys, and by none twice.
pub record Ranges {Key : Type 0} (env : Env Key) : Type 0 where
  pub visits : (ks : List ℕ) (k : ℕ) → elem k (env.range ks) ≡ elem k ks
  pub once : (ks : List ℕ) → Once ks → Once (env.range ks)

pub or_false : (b : Bool) → (b || false) ≡ b
or_false true = refl
or_false false = refl

module _ {Key : Type 0} (env : Env Key) where
  -- What a configuration promises of a port: its keys' ciphers if it has keys, and else no service;
  -- a port that was served before keeps its sockets.
  unfoldable pub Promised : List KeyConfig → ℕ → Option (SsPort Key) → Option (SsPort Key) → Type 0
  Promised ks p before none = has_key p ks ≡ false
  Promised ks p none (some a) = (has_key p ks ≡ true) × (a.cipher_list ≡ entries_of env p ks)
  Promised ks p (some b) (some a) =
      (has_key p ks ≡ true) × (a ≡ record b { cipher_list = entries_of env p ks })

  -- The same after the loop over the changes, before the ciphers are replaced.
  pub Middle : Bool → Option (SsPort Key) → Option (SsPort Key) → Type 0
  Middle false before after = after ≡ none
  Middle true none after = (a : SsPort Key) × (after ≡ some a)
  Middle true (some b) after = after ≡ some b

  pub change_count :
      (r : Ranges env) (ks : List KeyConfig) (changes : List (ℕ × ℤ)) (s : Server Key) (p : ℕ)
      → Once (keys s.ports)
      → count_of p changes ≡ (if has_key p ks then pos 1 else pos 0)
      → elem p (keys changes) ≡ (has_key p ks || false)
      → (count_of p (retire (env.range (keys s.ports)) changes) ≡ (
          if elem p (keys s.ports)
          then pred (if has_key p ks then pos 1 else pos 0)
          else (if has_key p ks then pos 1 else pos 0)))
        × (elem p (env.range (keys (retire (env.range (keys s.ports)) changes)))
            ≡ (elem p (keys s.ports) || (has_key p ks || false)))
  change_count r ks changes s p u c e =
      let (d, f) = retire_lem p (env.range (keys s.ports)) changes (r.once (keys s.ports) u) in
      (
        d ∙ (rw (r.visits (keys s.ports) p, c) refl),
        r.visits _ p ∙ f ∙ (rw (r.visits (keys s.ports) p, e) refl),
      )

  pub changed-Middle :
      (r : Ranges env) (ks : List KeyConfig) (changes : List (ℕ × ℤ)) (s : Server Key) (p : ℕ)
      → Once (keys s.ports)
      → count_of p changes ≡ (if has_key p ks then pos 1 else pos 0)
      → elem p (keys changes) ≡ (has_key p ks || false)
      → let all_changes = retire (env.range (keys s.ports)) changes in
        let (ending, s₁) = change_ports env (env.range (keys all_changes)) all_changes s in
        ending ≡ returned → Middle (has_key p ks) (get p s.ports) (get p s₁.ports)
  unfolding Middle Fate
  changed-Middle r ks changes s p u c e h =
      let all_changes = retire (env.range (keys s.ports)) changes in
      let (d, f) = change_count r ks changes s p u c e in
      let (absent, present) =
        change_ports-Fate env (env.range (keys all_changes)) all_changes s p h in
      elim (Bool-cases (has_key p ks)) [
        | inl t ↦ elim (Option-cases (get p s.ports)) [
          | inl n ↦
              let k : elem p (keys s.ports) ≡ false = elem-keys p s.ports ∙ (rw n refl) in
              let fate = present (f ∙ (rw (k, t) refl)) in
              let count : count_of p all_changes ≡ pos 1 = d ∙ (rw (k, t) refl) in
              rw (t, n) (rw count at fate)
          | inr (b, o) ↦
              let k : elem p (keys s.ports) ≡ true = elem-keys p s.ports ∙ (rw o refl) in
              let fate = present (f ∙ (rw k refl)) in
              let count : count_of p all_changes ≡ pos 0 = d ∙ (rw (k, t) refl) in
              rw (t, o) (rw (count, o) at fate)
        ]
        | inr t ↦ elim (Option-cases (get p s.ports)) [
          | inl n ↦
              let k : elem p (keys s.ports) ≡ false = elem-keys p s.ports ∙ (rw n refl) in
              rw t (absent (f ∙ (rw (k, t) refl)) ∙ n)
          | inr (b, o) ↦
              let k : elem p (keys s.ports) ≡ true = elem-keys p s.ports ∙ (rw o refl) in
              let fate = present (f ∙ (rw k refl)) in
              let count : count_of p all_changes ≡ negsuc 0 = d ∙ (rw (k, t) refl) in
              rw t (rw count at fate)
        ]
      ]

  pub Middle-served :
      (ks : List KeyConfig) (p : ℕ) (before after : Option (SsPort Key))
      → has_key p ks ≡ true
      → Middle (has_key p ks) before after
      → (a : SsPort Key) × (after ≡ some a)
  unfolding Middle
  Middle-served ks p none after t m = rw t at m
  Middle-served ks p (some b) after t m = (b, rw t at m)

  Middle-Promised :
      (ks : List KeyConfig) (p : ℕ) (ps : List ℕ) (ciphers : List (ℕ × List (CipherEntry Key)))
      (before after : Option (SsPort Key))
      → elem p ps ≡ has_key p ks
      → ciphers_of p ciphers ≡ entries_of env p ks
      → Middle (has_key p ks) before after
      → Promised ks p before (refresh env p ps ciphers after)
  unfolding Middle Promised refresh
  Middle-Promised ks p ps ciphers before after l c m = elim (Bool-cases (has_key p ks)) [
    | inr t ↦ let gone : after ≡ none = (rw t at m) in rw gone t
    | inl t ↦ served before (rw t at m) t
  ]
    where
      served :
          (before : Option (SsPort Key))
          → Middle true before after
          → has_key p ks ≡ true
          → Promised ks p before (refresh env p ps ciphers after)
      served none (a, e) t = rw e (t, rw (l, t) c)
      served (some b) e t = rw e (t, rw (l, t, c) refl)

  -- After a configuration is loaded without an error, exactly the ports that it has keys for are
  -- served, each with its keys' ciphers in the order of the configuration, and a port that was served
  -- before keeps its sockets. The order in which Go ranges over maps does not matter.
  pub load_config-Promised :
      (r : Ranges env) (ks : List KeyConfig) (s : Server Key) (p : ℕ)
      → Once (keys s.ports)
      → (load_config env (inr ks) s).0 ≡ returned
      → Promised ks p (get p s.ports) (get p (load_config env (inr ks) s).1.ports)
  unfolding load_config count_of ciphers_of get elem keys
  load_config-Promised r ks s p u h = elim (key_cases (read_keys env ks [] [])) [
    | inl (e, bad) ↦ cc (rw (bad, load_config) at h)
    | inr ((changes, ciphers), made) ↦
        let b = λ (q : ℕ). read_keys-Built env q ks [] changes [] ciphers made in
        let all_changes = retire (env.range (keys s.ports)) changes in
        let run = change_ports env (env.range (keys all_changes)) all_changes s in
        elim (ending_cases run.0) [
          | inr (inl (x, bad)) ↦ cc (rw (made, load_config, apply_config, bad) at h)
          | inr (inr bad) ↦ cc (rw (made, load_config, apply_config, bad) at h)
          | inl done ↦
              let mid =
                λ (q : ℕ). changed-Middle r ks changes s q u (b q).count (b q).changed done in
              let listed =
                λ (q : ℕ). r.visits (keys ciphers) q ∙ (b q).listed ∙ or_false (has_key q ks) in
              let (fine, after) =
                update_ciphers-get env (env.range (keys ciphers)) ciphers run.1 (λ q e.
                  Middle-served ks q (get q s.ports) (get q run.1.ports) (sym (listed q) ∙ e)
                    (mid q)) in
              rw (made, load_config, apply_config, done, fine, after p)
                (Middle-Promised ks p (env.range (keys ciphers)) ciphers (get p s.ports)
                  (get p run.1.ports) (listed p) (b p).ciphers (mid p))
        ]
  ]
