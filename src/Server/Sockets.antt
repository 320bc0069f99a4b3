-- ===== src/Server/Sockets.antt =====
-- The sockets that the server of cmd/outline-ss-server/main.go holds open, and the ports they are for.
use outline_ss_server.Prelude.{
  ℕ, ◌+◌, ◌<◌, ◌≡◌, ◌≢◌, refl, ap, sym, ◌∙◌, inl, inr, false, Option, none, some, List, [], ◌==◌,
  ==_iff, ==_self, if◌then◌else◌, Bool-cases, arith,
}
use mathlib.Core.Path.{subst}
use outline_ss_server.Prelude.Maps.{
  nat_eq, get, put, del, get-del, get-put_eq, get-put_ne, get-del_eq, get-del_ne,
}
use outline_ss_server.Server.{SsPort, Server, Proto, tcp, udp, Socket, open_socket}

-- The handle of a port's socket.
abbrev pub handle_of : {Key : Type 0} → SsPort Key → Proto → ℕ
handle_of a tcp = a.tcp_listener
handle_of a udp = a.packet_conn

port_of_socket : Option Socket → ℕ
port_of_socket none = 0
port_of_socket (some k) = k.port

socket-port :
    (p q : ℕ) (x y : Proto) (o : Option Socket)
    → o ≡ some (record { proto = x; port = p })
    → o ≡ some (record { proto = y; port = q })
    → p ≡ q
unfolding port_of_socket
socket-port p q x y o e f = ap port_of_socket (sym e ∙ f)

pub some-inj : {A : Type 0} (a b : A) (o : Option A) → o ≡ some a → o ≡ some b → a ≡ b
some-inj a b o e f = cc

pub eq-ne : (p q : ℕ) → (p == q) ≡ false → p ≢ q
eq-ne p q n e = ground arith

module _ {Key : Type 0} where
  -- Every port has its two sockets, and every socket is one of a port's.
  pub record Tidy (s : Server Key) : Type 0 where
    pub opened :
        (p : ℕ) (a : SsPort Key) (proto : Proto)
        → get p s.ports ≡ some a
        → get (handle_of a proto) s.sockets ≡ some (record { proto = proto; port = p })
    pub owned :
        (h : ℕ) (k : Socket)
        → get h s.sockets ≡ some k
        → (a : SsPort Key) × (get k.port s.ports ≡ some a) × (handle_of a k.proto ≡ h)
    pub below : (h : ℕ) (k : Socket) → get h s.sockets ≡ some k → h < s.next_handle

  closed : ℕ → SsPort Key → List (ℕ × Socket) → Option Socket
  closed h a ss =
      if a.packet_conn == h then none else (if a.tcp_listener == h then none else get h ss)

  get-closed :
      (h : ℕ) (a : SsPort Key) (ss : List (ℕ × Socket))
      → get h (del a.packet_conn (del a.tcp_listener ss)) ≡ closed h a ss
  unfolding closed
  get-closed h a ss =
      get-del h a.packet_conn (del a.tcp_listener ss) ∙ (rw (get-del h a.tcp_listener ss) refl)

  -- A socket that is open after a port's two are closed was open, and is none of the two.
  still_open :
      (h : ℕ) (a : SsPort Key) (ss : List (ℕ × Socket)) (k : Socket)
      → closed h a ss ≡ some k
      → (get h ss ≡ some k) × (a.tcp_listener ≢ h) × (a.packet_conn ≢ h)
  unfolding closed
  still_open h a ss k e = elim (Bool-cases (a.packet_conn == h)) [
    | inl u ↦ cc (rw u at e)
    | inr u ↦ elim (Bool-cases (a.tcp_listener == h)) [
      | inl t ↦ cc (rw (u, t) at e)
      | inr t ↦ (rw (u, t) at e, eq-ne _ _ t, eq-ne _ _ u)
    ]
  ]

  pub remove-Tidy :
      (p : ℕ) (a : SsPort Key) (s : Server Key)
      → get p s.ports ≡ some a
      → Tidy s
      → Tidy (record s {
        sockets = del a.packet_conn (del a.tcp_listener s.sockets);
        ports = del p s.ports;
      })
  unfolding closed
  remove-Tidy p a s found t = record {
    opened = λ q b proto e. elim (Bool-cases (p == q)) [
      | inl here ↦ cc (get-del_eq q p s.ports here, e)
      | inr there ↦
          let e' : get q s.ports ≡ some b = sym (get-del_ne q p s.ports there) ∙ e in
          let is_open = t.opened q b proto e' in
          get-closed (handle_of b proto) a s.sockets
          ∙ elim (Bool-cases (a.packet_conn == handle_of b proto)) [
            | inl u ↦ absurd (
                eq-ne p q there (
                  socket-port p q udp proto _ (t.opened p a udp found)
                    (ap (λ x. get x s.sockets) ((==_iff _ _).0 u) ∙ is_open)))
            | inr u ↦ elim (Bool-cases (a.tcp_listener == handle_of b proto)) [
              | inl v ↦ absurd (
                  eq-ne p q there (
                    socket-port p q tcp proto _ (t.opened p a tcp found)
                      (ap (λ x. get x s.sockets) ((==_iff _ _).0 v) ∙ is_open)))
              | inr v ↦ rw (u, v) is_open
            ]
          ]
    ];
    owned = λ h k e.
        let (was, not_tcp, not_udp) =
          still_open h a s.sockets k (sym (get-closed h a s.sockets) ∙ e) in
        let (b, gb, hb) = t.owned h k was in
        elim (Bool-cases (p == k.port)) [
          | inl here ↦
              let same : a ≡ b =
                some-inj a b _ found (ap (λ x. get x s.ports) ((==_iff _ _).0 here) ∙ gb) in
              absurd (none_of a h k.proto not_tcp not_udp (ap (λ x. handle_of x k.proto) same ∙ hb))
          | inr there ↦ (b, get-del_ne k.port p s.ports there ∙ gb, hb)
        ];
    below =
        λ h k e. t.below h k (still_open h a s.sockets k (sym (get-closed h a s.sockets) ∙ e)).0;
  }
    where
      none_of :
          (b : SsPort Key) (h : ℕ) (proto : Proto)
          → b.tcp_listener ≢ h
          → b.packet_conn ≢ h
          → handle_of b proto ≡ h
          → ⊥
      none_of b h tcp m n e = m e
      none_of b h udp m n e = n e

  pub start-Tidy :
      (p : ℕ) (s : Server Key)
      → get p s.ports ≡ none
      → Tidy s
      → Tidy (record (open_socket udp p (open_socket tcp p s)) {
        ports =
            put p
              (record {
                tcp_listener = s.next_handle;
                packet_conn = s.next_handle + 1;
                cipher_list = [];
              })
              s.ports;
      })
  unfolding open_socket
  start-Tidy p s absent t = record {
    opened = λ q b proto e. elim (Bool-cases (p == q)) [
      | inl here ↦
          ours q ((==_iff p q).0 here) b proto (sym (get-put_eq q p fresh s.ports here) ∙ e)
      | inr there ↦
          let e' : get q s.ports ≡ some b = sym (get-put_ne q p fresh s.ports there) ∙ e in
          let is_open = t.opened q b proto e' in
          let low = t.below (handle_of b proto) _ is_open in
          get-put_ne (handle_of b proto) (s.next_handle + 1) _ _ (ground arith)
          ∙ get-put_ne (handle_of b proto) s.next_handle _ s.sockets (ground arith)
          ∙ is_open
    ];
    owned = λ h k e. elim (Bool-cases (s.next_handle + 1 == h)) [
      | inl u ↦ mine h k udp ((==_iff _ _).0 u) (sym (get-put_eq h (s.next_handle + 1) _ _ u) ∙ e)
      | inr u ↦ elim (Bool-cases (s.next_handle == h)) [
        | inl v ↦ mine h k tcp ((==_iff _ _).0 v) (
            sym (get-put_eq h s.next_handle _ s.sockets v)
            ∙ sym (get-put_ne h (s.next_handle + 1) _ _ u)
            ∙ e)
        | inr v ↦
            let (b, gb, hb) = t.owned h k (old h k u v e) in
            elim (Bool-cases (p == k.port)) [
              | inl here ↦ cc (gb, absent, (==_iff p k.port).0 here)
              | inr there ↦ (b, get-put_ne k.port p fresh s.ports there ∙ gb, hb)
            ]
      ]
    ];
    below = λ h k e. elim (Bool-cases (s.next_handle + 1 == h)) [
      | inl u ↦ ground arith
      | inr u ↦ elim (Bool-cases (s.next_handle == h)) [
        | inl v ↦ ground arith
        | inr v ↦ omega (arith, t.below h k (old h k u v e))
      ]
    ];
  }
    where
      fresh : SsPort Key
      fresh = record {
        tcp_listener = s.next_handle;
        packet_conn = s.next_handle + 1;
        cipher_list = [];
      }

      after : List (ℕ × Socket)
      after =
          put (s.next_handle + 1) (record { proto = udp; port = p })
            (put s.next_handle (record { proto = tcp; port = p }) s.sockets)

      at_fresh :
          (proto : Proto)
          → get (handle_of fresh proto) after ≡ some (record { proto = proto; port = p })
      at_fresh tcp =
          get-put_ne s.next_handle (s.next_handle + 1) (record { proto = udp; port = p }) _
            (ground arith)
          ∙ get-put_eq s.next_handle s.next_handle _ s.sockets (==_self s.next_handle)
      at_fresh udp = get-put_eq (s.next_handle + 1) (s.next_handle + 1) _ _ (==_self _)

      mine :
          (h : ℕ) (k : Socket) (proto : Proto)
          → handle_of fresh proto ≡ h
          → some (record { proto = proto; port = p }) ≡ some k
          → (a : SsPort Key) × (get k.port (put p fresh s.ports) ≡ some a)
            × (handle_of a k.proto ≡ h)
      mine h k proto e f =
          subst
            (λ (x : Socket).
              (a : SsPort Key) × (get x.port (put p fresh s.ports) ≡ some a)
              × (handle_of a x.proto ≡ h))
            (some-inj (record { proto = proto; port = p }) k _ refl f)
            (fresh, get-put_eq p p fresh s.ports (==_self p), e)

      old :
          (h : ℕ) (k : Socket)
          → (s.next_handle + 1 == h) ≡ false
          → (s.next_handle == h) ≡ false
          → get h after ≡ some k
          → get h s.sockets ≡ some k
      old h k u v e =
          sym (get-put_ne h s.next_handle _ s.sockets v)
          ∙ sym (get-put_ne h (s.next_handle + 1) _ _ u)
          ∙ e

      ours :
          (q : ℕ)
          → p ≡ q
          → (b : SsPort Key) (proto : Proto) → some fresh ≡ some b
          → get (handle_of b proto) after ≡ some (record { proto = proto; port = q })
      ours q same b proto e =
          ap (λ (x : SsPort Key). get (handle_of x proto) after) (sym (some-inj fresh b _ refl e))
          ∙ at_fresh proto
          ∙ ap (λ x. some (record { proto = proto; port = x })) same
