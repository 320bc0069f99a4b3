-- ===== src/Server/Grants.antt =====
-- cmd/outline-ss-server/main.go: a load and a stop succeed if the system grants the sockets.
use outline_ss_server.Prelude.{
  ℕ, zero, suc, ◌≡◌, ◌≢◌, refl, ap, sym, ◌∙◌, inl, inr, true, false, ◌||◌, Option, none, some, List,
  [], ◌∷◌, ℤ, pos, negsuc, ◌==◌, ==_iff, ==_self, if◌then◌else◌, Bool-cases, Option-cases,
}
use outline_ss_server.Prelude.Maps.{
  nat_eq, get, keys, elem, Once, elem-keys, get-put_eq, get-put_ne,
}
use outline_ss_server.Server.{
  KeyConfig, SsPort, Server, Proto, tcp, udp, Socket, Env, returned, count_of, retire, start_port,
  open_socket, remove_port, close_error, change_port, change_ports, wrap_ending,
}
use outline_ss_server.Server.Changes.{has_key}
use outline_ss_server.Server.Ports.{change_port-Fate}
use outline_ss_server.Server.Load.{Ranges, change_count}
use outline_ss_server.Server.Sockets.{Tidy}
use outline_ss_server.Server.Sound.{Sound, change_port-Sound}

-- The system opens a socket for a port that none of its kind is open for, and closes without an error.
pub record Grants {Key : Type 0} (env : Env Key) : Type 0 where
  pub listens :
      (proto : Proto) (p : ℕ) (ss : List (ℕ × Socket))
      → ((h : ℕ) → get h ss ≢ some (record { proto = proto; port = p }))
      → env.listen proto p ss ≡ none
  pub closes : (h : ℕ) → env.close h ≡ none

proto_of : Option Socket → Proto
proto_of none = tcp
proto_of (some k) = k.proto

tcp-udp : tcp ≢ udp
tcp-udp h = cc

module _ {Key : Type 0} (env : Env Key) where
  -- No socket is open for a port that is not served.
  unused :
      (p : ℕ) (s : Server Key) (proto : Proto)
      → get p s.ports ≡ none
      → Tidy s
      → (h : ℕ) → get h s.sockets ≢ some (record { proto = proto; port = p })
  unused p s proto absent t h e =
      let (a, ga, ha) = t.owned h (record { proto = proto; port = p }) e in cc (ga, absent)

  start_port-returned :
      (g : Grants env) (p : ℕ) (s : Server Key)
      → get p s.ports ≡ none
      → Tidy s
      → (start_port env p s).0 ≡ returned
  unfolding start_port open_socket proto_of
  start_port-returned g p s absent t =
      let up : env.listen tcp p s.sockets ≡ none =
        g.listens tcp p s.sockets (unused p s tcp absent t) in
      let up₂ : env.listen udp p (open_socket tcp p s).sockets ≡ none = g.listens udp p _ (λ h e.
        elim (Bool-cases (s.next_handle == h)) [
          | inl new ↦ tcp-udp (
              ap proto_of (
                sym (get-put_eq h s.next_handle (record { proto = tcp; port = p }) s.sockets new)
                ∙ e))
          | inr old ↦ unused p s udp absent t h (
              sym (get-put_ne h s.next_handle (record { proto = tcp; port = p }) s.sockets old) ∙ e)
        ]) in
      rw (up, start_port, up₂) refl

  pub remove_port-returned :
      (closes : (h : ℕ) → env.close h ≡ none) (p : ℕ) (s : Server Key) (a : SsPort Key)
      → get p s.ports ≡ some a
      → (remove_port env p s).0 ≡ returned
  unfolding remove_port close_error
  remove_port-returned closes p s a found =
      rw (found, remove_port, closes a.tcp_listener, close_error, closes a.packet_conn) refl

  -- A change that a port can take: it is started only if it is not served, and removed only if it is.
  unfoldable pub Fits : ℤ → Option (SsPort Key) → Type 0
  Fits n o = (n ≡ pos 1 → o ≡ none) × (n ≡ negsuc 0 → (a : SsPort Key) × (o ≡ some a))

  change_port-returned :
      (g : Grants env) (p : ℕ) (n : ℤ) (s : Server Key)
      → Fits n (get p s.ports)
      → Tidy s
      → (change_port env p n s).0 ≡ returned
  unfolding change_port Fits wrap_ending
  change_port-returned g p (pos zero) s f t = refl
  change_port-returned g p (pos (suc zero)) s f t = start_port-returned g p s (f.0 refl) t
  change_port-returned g p (pos (suc (suc n))) s f t = refl
  change_port-returned g p (negsuc zero) s f t =
      let (a, found) = f.1 refl in ap (wrap_ending _) (remove_port-returned g.closes p s a found)
  change_port-returned g p (negsuc (suc n)) s f t = refl

  pub change_ports-returned :
      (g : Grants env) (ps : List ℕ) (changes : List (ℕ × ℤ)) (s : Server Key)
      → Once ps
      → ((q : ℕ) → elem q ps ≡ true → Fits (count_of q changes) (get q s.ports))
      → Sound s
      → (change_ports env ps changes s).0 ≡ returned
  unfolding change_ports Once elem Fits
  change_ports-returned g [] changes s u fits sound = refl
  change_ports-returned g (p ∷ ps) changes s (a, u) fits sound =
      let fit = fits p (rw (==_self p) refl) in
      let done = change_port-returned g p (count_of p changes) s fit sound.tidy in
      let others = (change_port-Fate env p (count_of p changes) s done).1 in
      let next = change_port-Sound env p (count_of p changes) s fit.0 done sound in
      rw (done, change_ports)
        (change_ports-returned g ps changes (change_port env p (count_of p changes) s).1 u
          (λ q e. elim (Bool-cases (p == q)) [
            | inl here ↦ let same : p ≡ q = (==_iff p q).0 here in cc (e, rw same at a)
            | inr ne ↦
                let fit_q = fits q (rw ne e) in
                (
                  λ k. others q ne ∙ fit_q.0 k,
                  λ k. let (b, found) = fit_q.1 k in (b, others q ne ∙ found),
                )
          ])
          next)

  -- Only a port that is served gets the change -1.
  pub removed_served :
      (r : Ranges env) (ks : List KeyConfig) (changes : List (ℕ × ℤ)) (s : Server Key) (p : ℕ)
      → Once (keys s.ports)
      → count_of p changes ≡ (if has_key p ks then pos 1 else pos 0)
      → elem p (keys changes) ≡ (has_key p ks || false)
      → count_of p (retire (env.range (keys s.ports)) changes) ≡ negsuc 0
      → (a : SsPort Key) × (get p s.ports ≡ some a)
  removed_served r ks changes s p u c e less = elim (Option-cases (get p s.ports)) [
    | inr found ↦ found
    | inl n ↦
        let k : elem p (keys s.ports) ≡ false = elem-keys p s.ports ∙ (rw n refl) in
        let d = (change_count env r ks changes s p u c e).0 in
        elim (Bool-cases (has_key p ks)) [
          | inl t ↦ cc (less, rw (k, t) at d)
          | inr f ↦ cc (less, rw (k, f) at d)
        ]
  ]
