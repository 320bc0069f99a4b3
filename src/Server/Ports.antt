-- ===== src/Server/Ports.antt =====
-- What the loops of `loadConfig` in cmd/outline-ss-server/main.go do to the ports of the server.
use outline_ss_server.Prelude.{
  ℕ, zero, suc, ◌≡◌, ◌⊎◌, refl, ap, sym, ◌∙◌, inl, inr, String, true, false, Option, none, some,
  List, [], ◌∷◌, ℤ, pos, negsuc, ◌==◌, ==_iff, ==_self, if◌then◌else◌, Bool-cases, Option-cases,
}
use mathlib.Core.Path.{subst}
use outline_ss_server.Prelude.Maps.{nat_eq, get, put, elem, get-put, get-del}
use outline_ss_server.Net.GoError.{GoError}
use outline_ss_server.Cipher.{CipherEntry}
use outline_ss_server.Server.{
  SsPort, Server, tcp, udp, Env, Ending, returned, failed, crashed, count_of, ciphers_of,
  open_socket, start_port, remove_port, change_port, change_ports, update_ciphers, wrap_ending,
}

pub ending_cases : (e : Ending) → (e ≡ returned) ⊎ ((x : GoError) × (e ≡ failed x)) ⊎ (e ≡ crashed)
ending_cases returned = inl refl
ending_cases (failed x) = inr (inl (x, refl))
ending_cases crashed = inr (inr refl)

pub wrap_returned : (m : String) (e : Ending) → wrap_ending m e ≡ returned → e ≡ returned
unfolding wrap_ending
wrap_returned m returned h = refl
wrap_returned m (failed x) h = cc
wrap_returned m crashed h = cc

module _ {Key : Type 0} where
  -- What becomes of a port by its change: 1 starts it, -1 removes it.
  unfoldable pub Fate : ℤ → Option (SsPort Key) → Option (SsPort Key) → Type 0
  Fate (pos zero) before after = after ≡ before
  Fate (pos (suc zero)) before after = (p : SsPort Key) × (after ≡ some p)
  Fate (pos (suc (suc n))) before after = after ≡ before
  Fate (negsuc zero) before after = after ≡ none
  Fate (negsuc (suc n)) before after = after ≡ before

  -- A port that meets its fate twice has met it.
  Fate-again : (n : ℤ) (a b c : Option (SsPort Key)) → Fate n a b → Fate n b c → Fate n a c
  unfolding Fate
  Fate-again (pos zero) a b c h k = k ∙ h
  Fate-again (pos (suc zero)) a b c h k = k
  Fate-again (pos (suc (suc n))) a b c h k = k ∙ h
  Fate-again (negsuc zero) a b c h k = k
  Fate-again (negsuc (suc n)) a b c h k = k ∙ h

module _ {Key : Type 0} (env : Env Key) where
  pub start_port-get :
      (p : ℕ) (s : Server Key)
      → (start_port env p s).0 ≡ returned
      → ((a : SsPort Key) × (get p (start_port env p s).1.ports ≡ some a))
        × ((q : ℕ) → (p == q) ≡ false → get q (start_port env p s).1.ports ≡ get q s.ports)
  unfolding start_port open_socket
  start_port-get p s h = elim (Option-cases (env.listen tcp p s.sockets)) [
    | inr (e, bad) ↦ cc (rw (bad, start_port) at h)
    | inl up ↦ elim (Option-cases (env.listen udp p (open_socket tcp p s).sockets)) [
      | inr (e, bad) ↦ cc (rw (up, start_port, bad) at h)
      | inl up₂ ↦
          let fresh : SsPort Key = record {
            tcp_listener = s.next_handle;
            packet_conn = (open_socket tcp p s).next_handle;
            cipher_list = [];
          } in
          rw (up, start_port, up₂)
            (
              (fresh, get-put p p fresh s.ports ∙ (rw (==_self p) refl)),
              λ q n. get-put q p fresh s.ports ∙ (rw n refl),
            )
    ]
  ]

  pub remove_port-get :
      (p : ℕ) (s : Server Key)
      → (remove_port env p s).0 ≡ returned
      → (get p (remove_port env p s).1.ports ≡ none)
        × ((q : ℕ) → (p == q) ≡ false → get q (remove_port env p s).1.ports ≡ get q s.ports)
  unfolding remove_port
  remove_port-get p s h = elim (Option-cases (get p s.ports)) [
    | inl absent ↦ cc (rw (absent, remove_port) at h)
    | inr (a, found) ↦
        rw (found, remove_port)
          (get-del p p s.ports ∙ (rw (==_self p) refl), λ q n. get-del q p s.ports ∙ (rw n refl))
  ]

  pub change_port-Fate :
      (p : ℕ) (n : ℤ) (s : Server Key)
      → (change_port env p n s).0 ≡ returned
      → Fate n (get p s.ports) (get p (change_port env p n s).1.ports)
        × ((q : ℕ) → (p == q) ≡ false → get q (change_port env p n s).1.ports ≡ get q s.ports)
  unfolding change_port Fate
  change_port-Fate p (pos zero) s h = (refl, λ q _. refl)
  change_port-Fate p (pos (suc zero)) s h = start_port-get p s h
  change_port-Fate p (pos (suc (suc n))) s h = (refl, λ q _. refl)
  change_port-Fate p (negsuc zero) s h = remove_port-get p s (wrap_returned _ _ h)
  change_port-Fate p (negsuc (suc n)) s h = (refl, λ q _. refl)

  pub change_ports-Fate :
      (ps : List ℕ) (changes : List (ℕ × ℤ)) (s : Server Key) (q : ℕ)
      → (change_ports env ps changes s).0 ≡ returned
      → (elem q ps ≡ false → get q (change_ports env ps changes s).1.ports ≡ get q s.ports)
        × (elem q ps ≡ true
            → Fate
                (count_of q changes)
                (get q s.ports)
                (get q (change_ports env ps changes s).1.ports))
  unfolding change_ports elem
  change_ports-Fate [] changes s q h = (λ _. refl, λ e. cc)
  change_ports-Fate (p ∷ ps) changes s q h =
      elim (ending_cases (change_port env p (count_of p changes) s).0) [
        | inr (inl (x, bad)) ↦ cc (rw (bad, change_ports) at h)
        | inr (inr bad) ↦ cc (rw (bad, change_ports) at h)
        | inl done ↦
            let s' = (change_port env p (count_of p changes) s).1 in
            let (fate, others) = change_port-Fate p (count_of p changes) s done in
            let (absent, present) =
              change_ports-Fate ps changes s' q (rw (done, change_ports) at h) in
            rw (done, change_ports)
              (elim (Bool-cases (p == q)) [
                | inr ne ↦ (
                  λ e. absent (rw ne at e) ∙ others q ne,
                  λ e. rw (← others q ne) (present (rw ne at e)),
                )
                | inl here ↦
                    let same : p ≡ q = (==_iff p q).0 here in
                    let fate_q : Fate (count_of q changes) (get q s.ports) (get q s'.ports) =
                      subst (λ x. Fate (count_of x changes) (get x s.ports) (get x s'.ports)) same
                        fate in
                    (
                      λ e. cc (rw here at e),
                      λ e. elim (Bool-cases (elem q ps)) [
                        | inl again ↦ Fate-again (count_of q changes) _ _ _ fate_q (present again)
                        | inr last ↦ rw (absent last) fate_q
                      ],
                    )
              ])
      ]

  -- The ciphers of a port that the loop comes by are replaced, and nothing else of the port.
  unfoldable pub refresh :
      ℕ → List ℕ → List (ℕ × List (CipherEntry Key)) → Option (SsPort Key) → Option (SsPort Key)
  refresh q ps ciphers none = none
  refresh q ps ciphers (some a) =
      some (if elem q ps then record a { cipher_list = ciphers_of q ciphers } else a)

  refresh_again :
      (p q : ℕ) (ps : List ℕ) (ciphers : List (ℕ × List (CipherEntry Key))) (a : SsPort Key)
      → (p == q) ≡ true
      → refresh q ps ciphers (some (record a { cipher_list = ciphers_of p ciphers }))
        ≡ refresh q (p ∷ ps) ciphers (some a)
  unfolding refresh elem
  refresh_again p q ps ciphers a here =
      let same : p ≡ q = (==_iff p q).0 here in
      elim (Bool-cases (elem q ps)) [
        | inl e ↦ rw (here, e) refl
        | inr e ↦
            rw (here, e) (ap (λ x. some (record a { cipher_list = ciphers_of x ciphers })) same)
      ]

  pub update_ciphers-get :
      (ps : List ℕ) (ciphers : List (ℕ × List (CipherEntry Key))) (s : Server Key)
      → ((q : ℕ) → elem q ps ≡ true → (a : SsPort Key) × (get q s.ports ≡ some a))
      → ((update_ciphers env ps ciphers s).0 ≡ returned)
        × ((q : ℕ)
            → get q (update_ciphers env ps ciphers s).1.ports
              ≡ refresh q ps ciphers (get q s.ports))
  unfolding update_ciphers elem refresh
  update_ciphers-get [] ciphers s h = (
    refl,
    λ q. elim (Option-cases (get q s.ports)) [ inl e ↦ rw e refl | inr (a, e) ↦ rw e refl ],
  )
  update_ciphers-get (p ∷ ps) ciphers s h =
      let (a, found) = h p (rw (==_self p) refl) in
      let b : SsPort Key = record a { cipher_list = ciphers_of p ciphers } in
      let s₁ : Server Key = record s { ports = put p b s.ports } in
      let rec = update_ciphers-get ps ciphers s₁ (λ q e. elim (Bool-cases (p == q)) [
        | inl here ↦ (b, get-put q p b s.ports ∙ (rw here refl))
        | inr ne ↦ let (c, k) = h q (rw ne e) in (c, get-put q p b s.ports ∙ (rw ne k))
      ]) in
      rw (found, update_ciphers)
        (
          rec.0,
          λ q. rec.1 q ∙ (elim (Bool-cases (p == q)) [
            | inl here ↦
                let same : p ≡ q = (==_iff p q).0 here in
                let at_q : get q s.ports ≡ some a = rw same at found in
                let now : get q s₁.ports ≡ some b = get-put q p b s.ports ∙ (rw here refl) in
                ap (refresh q ps ciphers) now
                ∙ refresh_again p q ps ciphers a here
                ∙ ap (refresh q (p ∷ ps) ciphers) (sym at_q)
            | inr ne ↦
                rw (get-put q p b s.ports, ne)
                  (elim (Option-cases (get q s.ports)) [
                    | inl e ↦ rw e refl
                    | inr (c, e) ↦ rw (e, ne) refl
                  ])
          ]),
        )
