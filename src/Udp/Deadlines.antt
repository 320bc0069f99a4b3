-- ===== src/Udp/Deadlines.antt =====
-- When a socket of service/udp.go closes: the deadlines of `natconn` over its traffic.
use outline_ss_server.Prelude.{
  ℕ, ◌+◌, ◌≡◌, refl, ap, ◌∙◌, sym, inl, inr, Bool, true, false, not, ◌&&◌, ◌||◌, none, some, List,
  [], ◌∷◌, ◌++◌, max, ltb, ltb→lt, if◌then◌else◌, arith, Bool-cases,
}
use outline_ss_server.Udp.NatConn.{
  NatConn, timeout_of, dns_timeout, after, is_zero, on_write, on_read, Traffic, sent, received, run,
}

-- The writes of a socket that nothing was read from yet.
pub writes : List (Bool × ℕ) → List Traffic
writes [] = []
writes ((dns, now) ∷ ws) = sent dns now ∷ writes ws

-- The latest time at which a write's own timeout ends, after an earlier deadline.
unfoldable pub latest : ℕ → ℕ → List (Bool × ℕ) → ℕ
latest timeout d [] = d
latest timeout d ((dns, now) ∷ ws) =
    latest timeout (max d (now + (if dns then dns_timeout else timeout))) ws

-- Nothing but at most one write, to port 53.
unfoldable pub may_close : List (Bool × ℕ) → Bool
may_close [] = true
may_close ((dns, now) ∷ []) = dns
may_close ((dns, now) ∷ w ∷ ws) = false

or-true : (a b : Bool) → (a || b || true) ≡ true
or-true a b = ground arith

module _ {Key : Type 0} where
  -- A new entry of the NAT table.
  pub record Fresh (c : NatConn Key) : Type 0 where
    pub read_deadline : c.read_deadline ≡ none
    pub fast_close : c.fast_close ≡ false
    pub deadline : c.deadline ≡ none

  run-append : (ts us : List Traffic) (c : NatConn Key) → run (ts ++ us) c ≡ run us (run ts c)
  unfolding run
  run-append [] us c = refl
  run-append (sent dns now ∷ ts) us c = run-append ts us (on_write dns now c)
  run-append (received dns now ∷ ts) us c = run-append ts us (on_read dns now c)

  -- The fast close is spent, and the socket has the deadline that the writes give it.
  record Locked (c : NatConn Key) : Type 0 where
    once : c.fast_close ≡ true
    same : c.deadline ≡ c.read_deadline

  write-Locked :
      (c : NatConn Key) (dns : Bool) (now : ℕ)
      → c.deadline ≡ c.read_deadline
      → (not dns || not (is_zero c.read_deadline) || c.fast_close) ≡ true
      → Locked (on_write dns now c)
  unfolding on_write
  write-Locked c dns now s o = elim (Bool-cases (after (now + timeout_of c dns) c.read_deadline)) [
    | inl later ↦ rw later (record { once = o; same = refl })
    | inr sooner ↦ rw sooner (record { once = o; same = s })
  ]

  read-Locked :
      (c : NatConn Key) (dns : Bool) (now : ℕ) → c.fast_close ≡ true → on_read dns now c ≡ c
  unfolding on_read
  read-Locked c dns now o = ground arith

  run-Locked : (ts : List Traffic) (c : NatConn Key) → Locked c → Locked (run ts c)
  unfolding run on_read
  run-Locked [] c l = l
  run-Locked (sent dns now ∷ ts) c l = run-Locked ts (on_write dns now c) (
      write-Locked c dns now l.same (rw l.once (or-true (not dns) (not (is_zero c.read_deadline)))))
  run-Locked (received dns now ∷ ts) c l =
      run-Locked ts (on_read dns now c) (rw (read-Locked c dns now l.once) l)

  first_write :
      (c : NatConn Key) (dns : Bool) (now : ℕ)
      → Fresh c
      → ((on_write dns now c).read_deadline ≡ some (now + timeout_of c dns))
        × ((on_write dns now c).deadline ≡ some (now + timeout_of c dns))
        × ((on_write dns now c).fast_close ≡ not dns)
  unfolding on_write after is_zero
  first_write c true now f = rw (f.read_deadline, f.fast_close, on_write) (refl, refl, refl)
  first_write c false now f = rw (f.read_deadline, on_write) (refl, refl, refl)

  second_write :
      (c : NatConn Key) (d₁ d₂ : Bool) (t₁ t₂ : ℕ)
      → Fresh c
      → Locked (on_write d₂ t₂ (on_write d₁ t₁ c))
  unfolding is_zero
  second_write c d₁ d₂ t₁ t₂ f =
      let (r, d, _) = first_write c d₁ t₁ f in
      write-Locked (on_write d₁ t₁ c) d₂ t₂ (d ∙ sym r) (rw r (ground arith))

  -- The first packet that a socket receives makes it time out at once if it comes from port 53 and
  -- nothing but at most one packet, to port 53, was sent; otherwise the deadline that the writes gave
  -- it stays.
  pub first_read_deadline :
      (c : NatConn Key) (ws : List (Bool × ℕ)) (dns : Bool) (now : ℕ)
      → Fresh c
      → (run (writes ws ++ received dns now ∷ []) c).deadline
        ≡ (if may_close ws && dns then some now else (run (writes ws) c).read_deadline)
  unfolding run writes may_close on_read
  first_read_deadline c [] true now f = rw (f.fast_close, on_read) refl
  first_read_deadline c [] false now f =
      rw (f.fast_close, on_read) (f.deadline ∙ sym f.read_deadline)
  first_read_deadline c ((true, t) ∷ []) true now f =
      let (r, d, o) = first_write c true t f in rw (o, on_read) refl
  first_read_deadline c ((true, t) ∷ []) false now f =
      let (r, d, o) = first_write c true t f in rw (o, on_read) (d ∙ sym r)
  first_read_deadline c ((false, t) ∷ []) dns now f =
      let (r, d, o) = first_write c false t f in
      rw (read-Locked (on_write false t c) dns now o) (d ∙ sym r)
  first_read_deadline c ((d₁, t₁) ∷ (d₂, t₂) ∷ ws) dns now f =
      let c₂ = on_write d₂ t₂ (on_write d₁ t₁ c) in
      let l = run-Locked (writes ws) c₂ (second_write c d₁ d₂ t₁ t₂ f) in
      rw
        (
          run-append (writes ws) (received dns now ∷ []) c₂,
          read-Locked (run (writes ws) c₂) dns now l.once,
        )
        l.same

  read_keeps :
      (c : NatConn Key) (dns : Bool) (now : ℕ)
      → ((on_read dns now c).read_deadline ≡ c.read_deadline)
        × ((on_read dns now c).fast_close ≡ true)
  unfolding on_read
  read_keeps c dns now = elim (Bool-cases c.fast_close) [
    | inl once ↦ rw (read-Locked c dns now once) (refl, once)
    | inr open_still ↦ elim (Bool-cases dns) [
      | inl d ↦ rw (open_still, on_read, d) (refl, refl)
      | inr d ↦ rw (open_still, on_read, d) (refl, refl)
    ]
  ]

  -- A socket whose first packet does not make it time out never times out early: its deadline is the
  -- one that its writes give it, whatever it sends and receives from then on.
  pub no_early_close :
      (c : NatConn Key) (ws : List (Bool × ℕ)) (dns : Bool) (now : ℕ) (us : List Traffic)
      → Fresh c
      → (may_close ws && dns) ≡ false
      → (run (writes ws ++ received dns now ∷ us) c).deadline
        ≡ (run (writes ws ++ received dns now ∷ us) c).read_deadline
  unfolding run
  no_early_close c ws dns now us f h =
      let c₁ = run (writes ws) c in
      let (r, o) = read_keeps c₁ dns now in
      let d : (on_read dns now c₁).deadline ≡ c₁.read_deadline =
        sym
          (ap (λ (x : NatConn Key). x.deadline) (run-append (writes ws) (received dns now ∷ []) c))
        ∙ first_read_deadline c ws dns now f
        ∙ (rw h refl) in
      rw (run-append (writes ws) (received dns now ∷ us) c)
        (run-Locked us (on_read dns now c₁) (record { once = o; same = d ∙ sym r })).same

  write-timeout :
      (c : NatConn Key) (dns : Bool) (now : ℕ)
      → (on_write dns now c).default_timeout ≡ c.default_timeout
  unfolding on_write
  write-timeout c dns now = elim (Bool-cases (after (now + timeout_of c dns) c.read_deadline)) [
    | inl later ↦ rw later refl
    | inr sooner ↦ rw sooner refl
  ]

  write-max :
      (c : NatConn Key) (dns : Bool) (now d : ℕ)
      → c.read_deadline ≡ some d
      → ((on_write dns now c).read_deadline ≡ some (max d (now + timeout_of c dns)))
        × ((on_write dns now c).default_timeout ≡ c.default_timeout)
  unfolding on_write after
  write-max c dns now d e = elim (Bool-cases (ltb d (now + timeout_of c dns))) [
    | inl later ↦ rw (e, on_write, later) (ap some (omega (arith, ltb→lt d _ later)), refl)
    | inr sooner ↦ rw (e, on_write, sooner) (ap some (bigger sooner), refl)
  ]
    where
      bigger : ltb d (now + timeout_of c dns) ≡ false → d ≡ max d (now + timeout_of c dns)
      bigger h = ground arith

  writes-max :
      (c : NatConn Key) (ws : List (Bool × ℕ)) (d : ℕ)
      → c.read_deadline ≡ some d
      → (run (writes ws) c).read_deadline ≡ some (latest c.default_timeout d ws)
  unfolding run writes latest
  writes-max c [] d e = e
  writes-max c ((dns, now) ∷ ws) d e =
      let (m, t) = write-max c dns now d e in writes-max (on_write dns now c) ws _ m ∙ (rw t refl)

  -- A socket that has sent packets and received none keeps the latest of their deadlines: 17 seconds
  -- after a packet to port 53, and the default timeout after any other.
  pub writes_deadline :
      (c : NatConn Key) (dns : Bool) (now : ℕ) (ws : List (Bool × ℕ))
      → Fresh c
      → (run (writes ((dns, now) ∷ ws)) c).read_deadline
        ≡ some (latest c.default_timeout (now + timeout_of c dns) ws)
  unfolding run writes on_write after
  writes_deadline c dns now ws f =
      let (r, d, o) = first_write c dns now f in
      writes-max (on_write dns now c) ws (now + timeout_of c dns) r
      ∙ (rw (write-timeout c dns now) refl)
