-- ===== src/Server/Outcome.antt =====
-- cmd/outline-ss-server/main.go: how a load, a stop and the start of a port end.
use outline_ss_server.Prelude.{
  ℕ, ◌≡◌, refl, ap, sym, ◌∙◌, inl, inr, true, false, none, some, List, [], ◌∷◌, ◌==◌, ==_iff,
  ==_self, if◌then◌else◌, Bool-cases, Option-cases,
}
use outline_ss_server.Prelude.Maps.{nat_eq, get, keys, elem, Once, elem-keys, get-put_eq}
use outline_ss_server.Net.GoError.{GoError, wrapped}
use outline_ss_server.Server.{
  KeyConfig, SsPort, Server, tcp, udp, Env, returned, failed, count_of, retire, start_port,
  open_socket, remove_port, change_ports, apply_config, load_config, stop_ports, stop,
}
use outline_ss_server.Server.Changes.{has_key, read_keys-Built}
use outline_ss_server.Server.Ports.{remove_port-get, update_ciphers-get}
use outline_ss_server.Server.Load.{Ranges, changed-Middle, Middle-served, or_false}
use outline_ss_server.Server.Sound.{
  Sound, retire-Once, read_keys-Once, started_absent, remove_port-Sound,
}
use outline_ss_server.Server.Grants.{
  Grants, Fits, change_ports-returned, removed_served, remove_port-returned,
}
use outline_ss_server.Server.Reload.{bad_key, read_keys-good}

elem-get :
    {V : Type 0} (p : ℕ) (m : List (ℕ × V)) → elem p (keys m) ≡ true → (v : V) × (get p m ≡ some v)
elem-get p m h = elim (Option-cases (get p m)) [
  | inl n ↦ let k = elem-keys p m in cc (rw n at k, h)
  | inr found ↦ found
]

get-elem : {V : Type 0} (p : ℕ) (m : List (ℕ × V)) → elem p (keys m) ≡ false → get p m ≡ none
get-elem p m h = elim (Option-cases (get p m)) [
  | inl n ↦ n
  | inr (v, found) ↦ let k = elem-keys p m in cc (rw found at k, h)
]

module _ {Key : Type 0} (env : Env Key) where
  -- A configuration whose keys all have a cipher is loaded without an error and without a crash, if
  -- the system grants the sockets for ports that no socket is open for, and closes what it is told to.
  pub load_config-returned :
      (r : Ranges env) (g : Grants env) (ks : List KeyConfig) (s : Server Key)
      → Sound s
      → bad_key env ks ≡ none
      → (load_config env (inr ks) s).0 ≡ returned
  unfolding load_config count_of get elem keys Once Fits
  load_config-returned r g ks s sound good =
      let ((changes, ciphers), made) = read_keys-good env ks [] [] good in
      let b = λ (q : ℕ). read_keys-Built env q ks [] changes [] ciphers made in
      let all_changes = retire (env.range (keys s.ports)) changes in
      let run = change_ports env (env.range (keys all_changes)) all_changes s in
      let distinct : Once (keys all_changes) =
        retire-Once (env.range (keys s.ports)) changes
          (read_keys-Once env ks [] changes [] ciphers made tt) in
      let done : run.0 ≡ returned =
        change_ports-returned env g (env.range (keys all_changes)) all_changes s
          (r.once (keys all_changes) distinct)
          (λ q _. (
            started_absent env r ks changes s q sound.once (b q).count (b q).changed,
            removed_served env r ks changes s q sound.once (b q).count (b q).changed,
          ))
          sound in
      let mid =
        λ (q : ℕ). changed-Middle env r ks changes s q sound.once (b q).count (b q).changed done in
      let listed = λ (q : ℕ). r.visits (keys ciphers) q ∙ (b q).listed ∙ or_false (has_key q ks) in
      let (fine, _) = update_ciphers-get env (env.range (keys ciphers)) ciphers run.1 (λ q e.
        Middle-served env ks q (get q s.ports) (get q run.1.ports) (sym (listed q) ∙ e) (mid q)) in
      rw (made, load_config, apply_config, done, fine) refl

  stop_ports-returned :
      (closes : (h : ℕ) → env.close h ≡ none) (ps : List ℕ) (s : Server Key)
      → Once ps
      → ((q : ℕ) → elem q ps ≡ true → (a : SsPort Key) × (get q s.ports ≡ some a))
      → Sound s
      → ((stop_ports env ps s).0 ≡ returned)
        × Sound (stop_ports env ps s).1
        × ((q : ℕ)
            → get q (stop_ports env ps s).1.ports ≡ (if elem q ps then none else get q s.ports))
  unfolding stop_ports Once elem
  stop_ports-returned closes [] s u served sound = (refl, sound, λ q. refl)
  stop_ports-returned closes (p ∷ ps) s (a, u) served sound =
      let (port, found) = served p (rw (==_self p) refl) in
      let done = remove_port-returned env closes p s port found in
      let (gone, others) = remove_port-get env p s done in
      let (ended, kept, left) =
        stop_ports-returned closes ps (remove_port env p s).1 u
          (λ q e. elim (Bool-cases (p == q)) [
            | inl here ↦ let same : p ≡ q = (==_iff p q).0 here in cc (e, rw same at a)
            | inr ne ↦ let (b, k) = served q (rw ne e) in (b, others q ne ∙ k)
          ])
          (remove_port-Sound env p s sound) in
      rw (done, stop_ports)
        (
          ended,
          kept,
          λ q. left q ∙ (elim (Bool-cases (p == q)) [
            | inl here ↦
                let same : p ≡ q = (==_iff p q).0 here in
                let absent : elem q ps ≡ false = rw same at a in
                rw (here, absent) (ap (λ x. get x (remove_port env p s).1.ports) (sym same) ∙ gone)
            | inr ne ↦ rw (ne, others q ne) refl
          ]),
        )

  -- On a server whose open sockets are exactly the two of each port that is served, as they are when
  -- no start of a port has failed halfway, and whose `Close` of a socket returns no error, `Stop`
  -- returns nil, and after it no port is served and no socket is open. A range over a map visits each
  -- key once.
  pub stop_lem :
      (r : Ranges env) (closes : (h : ℕ) → env.close h ≡ none) (s : Server Key)
      → Sound s
      → ((stop env s).0 ≡ returned)
        × ((p : ℕ) → get p (stop env s).1.ports ≡ none)
        × ((h : ℕ) → get h (stop env s).1.sockets ≡ none)
  unfolding stop
  stop_lem r closes s sound =
      let (ended, kept, left) =
        stop_ports-returned closes (env.range (keys s.ports)) s (r.once (keys s.ports) sound.once)
          (λ q e. elem-get q s.ports (sym (r.visits (keys s.ports) q) ∙ e)) sound in
      let nothing : (p : ℕ) → get p (stop env s).1.ports ≡ none = λ p.
        left p ∙ (elim (Bool-cases (elem p (keys s.ports))) [
          | inl e ↦ rw (r.visits (keys s.ports) p, e) refl
          | inr e ↦ rw (r.visits (keys s.ports) p, e) (get-elem p s.ports e)
        ]) in
      (
        ended,
        nothing,
        λ h. elim (Option-cases (get h (stop env s).1.sockets)) [
          | inl n ↦ n
          | inr (k, open_still) ↦
              let (a, ga, ha) = kept.tidy.owned h k open_still in cc (ga, nothing k.port)
        ],
      )

  -- If the UDP socket of a port that is not served cannot be opened once its TCP socket is, the start
  -- fails, the port is not served, and the TCP socket is still open: it belongs to no port.
  pub start_port-leak :
      (p : ℕ) (s : Server Key) (e : GoError)
      → get p s.ports ≡ none
      → env.listen tcp p s.sockets ≡ none
      → env.listen udp p (open_socket tcp p s).sockets ≡ some e
      → let (ending, s') = start_port env p s in
        (ending ≡ failed (wrapped "Shadowsocks UDP service failed to start" e))
        × (s'.ports ≡ s.ports)
        × (get s.next_handle s'.sockets ≡ some (record { proto = tcp; port = p }))
        × (¬ (Sound s'))
  unfolding start_port open_socket
  start_port-leak p s e absent up down =
      let opened =
        get-put_eq s.next_handle s.next_handle (record { proto = tcp; port = p }) s.sockets
          (==_self _) in
      rw (up, start_port, down)
        (
          refl,
          refl,
          opened,
          λ sound.
              let (a, ga, ha) =
                sound.tidy.owned s.next_handle (record { proto = tcp; port = p }) opened in
              cc (ga, absent),
        )
