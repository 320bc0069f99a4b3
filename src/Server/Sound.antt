-- ===== src/Server/Sound.antt =====
-- What stays true of the ports and the sockets in cmd/outline-ss-server/main.go while configurations
-- are loaded.
use outline_ss_server.Prelude.{
  ℕ, zero, suc, ◌+◌, ◌≡◌, refl, ap, sym, ◌∙◌, inl, inr, true, false, ◌||◌, none, some, List, [],
  ◌∷◌, ℤ, pos, negsuc, ◌==◌, ==_iff, ==_self, if◌then◌else◌, Bool-cases, Option-cases, arith, pred,
}
use outline_ss_server.Prelude.Maps.{
  nat_eq, get, put, keys, elem, Once, elem-keys, get-put_eq, get-put_ne, Once-put, Once-del,
}
use outline_ss_server.Cipher.{CipherEntry}
use outline_ss_server.Server.{
  KeyConfig, SsPort, Server, tcp, udp, Env, returned, count_of, ciphers_of, retire, read_keys,
  start_port, open_socket, remove_port, change_port, change_ports, update_ciphers,
}
use outline_ss_server.Server.Changes.{has_key, key_cases}
use outline_ss_server.Server.Ports.{ending_cases, change_port-Fate}
use outline_ss_server.Server.Load.{Ranges, change_count}
use outline_ss_server.Server.Sockets.{Tidy, handle_of, some-inj, start-Tidy, remove-Tidy}

-- No port twice, and exactly its two sockets open for each.
pub record Sound {Key : Type 0} (s : Server Key) : Type 0 where
  pub tidy : Tidy s
  pub once : Once (keys s.ports)

pub retire-Once : (ps : List ℕ) (m : List (ℕ × ℤ)) → Once (keys m) → Once (keys (retire ps m))
unfolding retire
retire-Once [] m u = u
retire-Once (p ∷ ps) m u = retire-Once ps _ (Once-put p (pred (count_of p m)) m u)

module _ {Key : Type 0} (env : Env Key) where
  pub read_keys-Once :
      (ks : List KeyConfig) (m m' : List (ℕ × ℤ)) (c c' : List (ℕ × List (CipherEntry Key)))
      → read_keys env ks m c ≡ inr (m', c')
      → Once (keys m)
      → Once (keys m')
  unfolding read_keys
  read_keys-Once [] m m' c c' h u = let e : m ≡ m' = (ground arith) in rw (← e) u
  read_keys-Once (k ∷ ks) m m' c c' h u =
      elim (key_cases (env.new_encryption_key k.cipher k.secret)) [
        | inl (e, bad) ↦ cc (rw (bad, read_keys) at h)
        | inr (key, made) ↦
            read_keys-Once ks (put k.port (pos 1) m) m' _ c' (rw (made, read_keys) at h)
              (Once-put k.port (pos 1) m u)
      ]

  pub start_port-Sound :
      (p : ℕ) (s : Server Key)
      → get p s.ports ≡ none
      → (start_port env p s).0 ≡ returned
      → Sound s
      → Sound (start_port env p s).1
  unfolding start_port open_socket
  start_port-Sound p s absent h sound = elim (Option-cases (env.listen tcp p s.sockets)) [
    | inr (e, bad) ↦ cc (rw (bad, start_port) at h)
    | inl up ↦ elim (Option-cases (env.listen udp p (open_socket tcp p s).sockets)) [
      | inr (e, bad) ↦ cc (rw (up, start_port, bad) at h)
      | inl up₂ ↦
          let fresh : SsPort Key = record {
            tcp_listener = s.next_handle;
            packet_conn = s.next_handle + 1;
            cipher_list = [];
          } in
          rw (up, start_port, up₂)
            (record {
              tidy = start-Tidy p s absent sound.tidy;
              once = Once-put p fresh s.ports sound.once;
            })
    ]
  ]

  -- Also if `Close` returns an error.
  pub remove_port-Sound : (p : ℕ) (s : Server Key) → Sound s → Sound (remove_port env p s).1
  unfolding remove_port
  remove_port-Sound p s sound = elim (Option-cases (get p s.ports)) [
    | inl absent ↦ rw (absent, remove_port) sound
    | inr (a, found) ↦
        rw (found, remove_port)
          (record {
            tidy = remove-Tidy p a s found sound.tidy;
            once = Once-del p s.ports sound.once;
          })
  ]

  pub change_port-Sound :
      (p : ℕ) (n : ℤ) (s : Server Key)
      → (n ≡ pos 1 → get p s.ports ≡ none)
      → (change_port env p n s).0 ≡ returned
      → Sound s
      → Sound (change_port env p n s).1
  unfolding change_port
  change_port-Sound p (pos zero) s absent h sound = sound
  change_port-Sound p (pos (suc zero)) s absent h sound = start_port-Sound p s (absent refl) h sound
  change_port-Sound p (pos (suc (suc n))) s absent h sound = sound
  change_port-Sound p (negsuc zero) s absent h sound = remove_port-Sound p s sound
  change_port-Sound p (negsuc (suc n)) s absent h sound = sound

  pub change_ports-Sound :
      (ps : List ℕ) (changes : List (ℕ × ℤ)) (s : Server Key)
      → Once ps
      → ((q : ℕ) → elem q ps ≡ true → count_of q changes ≡ pos 1 → get q s.ports ≡ none)
      → (change_ports env ps changes s).0 ≡ returned
      → Sound s
      → Sound (change_ports env ps changes s).1
  unfolding change_ports Once elem
  change_ports-Sound [] changes s u absent h sound = sound
  change_ports-Sound (p ∷ ps) changes s (a, u) absent h sound =
      elim (ending_cases (change_port env p (count_of p changes) s).0) [
        | inr (inl (x, bad)) ↦ cc (rw (bad, change_ports) at h)
        | inr (inr bad) ↦ cc (rw (bad, change_ports) at h)
        | inl done ↦
            let others = (change_port-Fate env p (count_of p changes) s done).1 in
            let next =
              change_port-Sound p (count_of p changes) s (absent p (rw (==_self p) refl)) done
                sound in
            rw (done, change_ports)
              (change_ports-Sound ps changes (change_port env p (count_of p changes) s).1 u
                (λ q e k. elim (Bool-cases (p == q)) [
                  | inl here ↦ let same : p ≡ q = (==_iff p q).0 here in cc (e, rw same at a)
                  | inr ne ↦ others q ne ∙ absent q (rw ne e) k
                ])
                (rw (done, change_ports) at h) next)
      ]

  -- The ciphers of a port are no matter of its sockets.
  refresh-Tidy :
      (p : ℕ) (a : SsPort Key) (l : List (CipherEntry Key)) (s : Server Key)
      → get p s.ports ≡ some a
      → Tidy s
      → Tidy (record s { ports = put p (record a { cipher_list = l }) s.ports })
  refresh-Tidy p a l s found t = record {
    opened = λ q b proto e. elim (Bool-cases (p == q)) [
      | inl here ↦
          let same : p ≡ q = (==_iff p q).0 here in
          let new : record a { cipher_list = l } ≡ b =
            some-inj _ b _ (get-put_eq q p (record a { cipher_list = l }) s.ports here) e in
          ap (λ (x : SsPort Key). get (handle_of x proto) s.sockets) (sym new)
          ∙ handles proto
          ∙ ap (λ x. some (record { proto = proto; port = x })) same
      | inr ne ↦ t.opened q b proto (sym (get-put_ne q p _ s.ports ne) ∙ e)
    ];
    owned = λ h k e.
        let (b, gb, hb) = t.owned h k e in
        elim (Bool-cases (p == k.port)) [
          | inl here ↦
              let same : a ≡ b =
                some-inj a b _ found (ap (λ x. get x s.ports) ((==_iff _ _).0 here) ∙ gb) in
              (
                record a { cipher_list = l },
                get-put_eq k.port p (record a { cipher_list = l }) s.ports here,
                kept k.proto ∙ ap (λ (x : SsPort Key). handle_of x k.proto) same ∙ hb,
              )
          | inr ne ↦ (b, get-put_ne k.port p _ s.ports ne ∙ gb, hb)
        ];
    below = t.below;
  }
    where
      kept : (proto : _) → handle_of (record a { cipher_list = l }) proto ≡ handle_of a proto
      kept tcp = refl
      kept udp = refl

      handles :
          (proto : _)
          → get (handle_of (record a { cipher_list = l }) proto) s.sockets
            ≡ some (record { proto = proto; port = p })
      handles proto = ap (λ x. get x s.sockets) (kept proto) ∙ t.opened p a proto found

  pub update_ciphers-Sound :
      (ps : List ℕ) (ciphers : List (ℕ × List (CipherEntry Key))) (s : Server Key)
      → Sound s
      → Sound (update_ciphers env ps ciphers s).1
  unfolding update_ciphers
  update_ciphers-Sound [] ciphers s sound = sound
  update_ciphers-Sound (p ∷ ps) ciphers s sound = elim (Option-cases (get p s.ports)) [
    | inl absent ↦ rw (absent, update_ciphers) sound
    | inr (a, found) ↦
        let b : SsPort Key = record a { cipher_list = ciphers_of p ciphers } in
        rw (found, update_ciphers)
          (update_ciphers-Sound ps ciphers (record s { ports = put p b s.ports })
            (record {
              tidy = refresh-Tidy p a (ciphers_of p ciphers) s found sound.tidy;
              once = Once-put p b s.ports sound.once;
            }))
  ]

  -- Only a port that is not served gets the change 1.
  pub started_absent :
      (r : Ranges env) (ks : List KeyConfig) (changes : List (ℕ × ℤ)) (s : Server Key) (p : ℕ)
      → Once (keys s.ports)
      → count_of p changes ≡ (if has_key p ks then pos 1 else pos 0)
      → elem p (keys changes) ≡ (has_key p ks || false)
      → count_of p (retire (env.range (keys s.ports)) changes) ≡ pos 1
      → get p s.ports ≡ none
  started_absent r ks changes s p u c e one = elim (Option-cases (get p s.ports)) [
    | inl n ↦ n
    | inr (b, o) ↦
        let k : elem p (keys s.ports) ≡ true = elem-keys p s.ports ∙ (rw o refl) in
        let d = (change_count env r ks changes s p u c e).0 in
        elim (Bool-cases (has_key p ks)) [
          | inl t ↦ cc (one, rw (k, t) at d)
          | inr f ↦ cc (one, rw (k, f) at d)
        ]
  ]
