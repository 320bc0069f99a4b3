-- ===== src/Udp/Admission.antt =====
-- Which packets of service/udp.go reach a target, and which make an entry in the NAT table.
use mathlib.Core.List.{Mem, mem-cons_of_mem, mem-cons_self}
use outline_ss_server.Prelude.{
  ℕ, String, ◌≡◌, refl, ap, sym, ◌∙◌, ◌⊎◌, inl, inr, Option, none, some, List, [], ◌∷◌, length,
  drop, arith, Option-cases,
}
use outline_ss_server.Net.GoError.{
  GoError, ConnectionError, as_connection_error, new_connection_error, ensure_connection_error,
}
use outline_ss_server.IpInfo.{IpInfo}
use outline_ss_server.Cipher.{CipherList, snapshot_for_client_ip}
use outline_ss_server.Tcp.State.{Outcome, done, panic}
use outline_ss_server.Udp.NatConn.{NatConn}
use outline_ss_server.Udp.NatMap.{get}
use outline_ss_server.Udp.Packet.{
  UdpAddr, PacketHandler, UdpState, Incoming, Checked, allowed, rejected, Verdict, admitted,
  turned_away, crashed, unpack_entry, find_access_key_udp, validate_packet, judge, admit_opened,
  admit_new, admit_known, admit, conclude, handle_packet,
}

module _ {Key : Type 0} (h : PacketHandler Key) where
  -- The target and the payload that a verdict lets through.
  unfoldable pub passed : Verdict Key → Option (UdpAddr × List ℕ)
  passed (admitted info id entry payload addr) = some (addr, payload)
  passed (turned_away b info id e) = none
  passed (crashed info) = none

  pub conclude-passed :
      (p : Incoming) (v : Verdict Key) (s : UdpState Key)
      → ((conclude h p v s).0.written ≡ passed v) × (passed v ≡ none → (conclude h p v s).1 ≡ s)
  unfolding conclude passed
  conclude-passed p (admitted info id entry payload addr) s = (refl, λ e. cc)
  conclude-passed p (turned_away b info id e) s = (refl, λ e. refl)
  conclude-passed p (crashed info) s = (refl, λ e. refl)

  pub check_cases :
      (c : Checked)
      → ((e : ConnectionError) × (c ≡ rejected e))
        ⊎ ((q : List ℕ × UdpAddr) × (c ≡ allowed q.0 q.1))
  check_cases (rejected e) = inl (e, refl)
  check_cases (allowed payload addr) = inr ((payload, addr), refl)

  -- What a packet's payload and target are read from.
  pub record Readable (text : List ℕ) (addr : UdpAddr) (payload : List ℕ) : Type 0 where
    pub tgt : List ℕ
    pub split : h.net.split_addr text ≡ some tgt
    pub resolved : h.net.resolve tgt ≡ inr addr
    pub valid : h.target_ip_validator addr.ip ≡ none
    pub rest : payload ≡ drop (length tgt) text

  resolve_cases :
      (r : GoError ⊎ UdpAddr) → ((e : GoError) × (r ≡ inl e)) ⊎ ((a : UdpAddr) × (r ≡ inr a))
  resolve_cases (inl e) = inl (e, refl)
  resolve_cases (inr a) = inr (a, refl)

  ensured :
      (e : GoError) (status message : String)
      → (c : ConnectionError) × (ensure_connection_error (some e) status message ≡ some c)
  unfolding ensure_connection_error
  ensured e status message = elim (Option-cases (as_connection_error e)) [
    | inl no_conn ↦
        (new_connection_error status message (some e), rw (no_conn, ensure_connection_error) refl)
    | inr (c, found) ↦ (c, rw (found, ensure_connection_error) refl)
  ]

  allowed-Readable :
      (text : List ℕ) (addr : UdpAddr) (payload : List ℕ)
      → validate_packet h text ≡ allowed payload addr
      → Readable text addr payload
  unfolding validate_packet ensure_connection_error
  allowed-Readable text addr payload e = elim (Option-cases (h.net.split_addr text)) [
    | inl bad ↦ cc (rw (bad, validate_packet) at e)
    | inr (tgt, split) ↦ elim (resolve_cases (h.net.resolve tgt)) [
      | inl (err, bad) ↦ cc (rw (split, validate_packet, bad) at e)
      | inr (a, resolved) ↦ elim (Option-cases (h.target_ip_validator a.ip)) [
        | inr (err, bad) ↦
            let (c, made) = ensured err "ERR_ADDRESS_INVALID" "invalid address" in
            cc (rw (split, validate_packet, resolved, bad, made) at e)
        | inl valid ↦
            let e' : allowed (drop (length tgt) text) a ≡ allowed payload addr =
              (rw (split, validate_packet, resolved, valid) at e) in
            let same : a ≡ addr =
              ap (λ (c : Checked). elim c [ allowed q b ↦ b | rejected x ↦ a ]) e' in
            record {
              tgt = tgt;
              split = split;
              resolved = resolved ∙ ap inr same;
              valid = rw same at valid;
              rest = sym (ap (λ (c : Checked). elim c [ allowed q b ↦ q | rejected x ↦ [] ]) e');
            }
      ]
    ]
  ]

  unpack_entry-opens :
      (cl : CipherList Key) (src : List ℕ) (es : List (Option ℕ)) (text : List ℕ) (e : ℕ)
      → unpack_entry h cl src es ≡ done (some (text, e))
      → Mem (some e) es × (h.shadowsocks.unpack src (cl.store e).crypto_key ≡ some text)
  unfolding unpack_entry
  unpack_entry-opens cl src [] text e q = cc
  unpack_entry-opens cl src (none ∷ es) text e q = cc
  unpack_entry-opens cl src (some x ∷ es) text e q =
      elim (Option-cases (h.shadowsocks.unpack src (cl.store x).crypto_key)) [
        | inl shut ↦
            let (m, o) = unpack_entry-opens cl src es text e (rw (shut, unpack_entry) at q) in
            (mem-cons_of_mem (some x) m, o)
        | inr (t, opened) ↦
            let q' : ◌≡◌ {A = Outcome (Option (List ℕ × ℕ))} (done (some (t, x)))
                (done (some (text, e))) =
              (rw (opened, unpack_entry) at q) in
            let same : x ≡ e = ground arith in
            let text_eq : t ≡ text = ground arith in
            (rw same mem-cons_self, rw same at (opened ∙ ap some text_eq))
      ]

  -- Whose key opened a packet: that of the client's entry in the table, or one of the port's list.
  pub data Owner (p : Incoming) (s : UdpState Key) (key : Key) : Type 0 where
    known :
        (entry : NatConn Key)
        → get (h.text.addr_string p.remote) s.nat ≡ some entry
        → key ≡ entry.crypto_key
        → Owner p s key
    listed :
        (e : ℕ)
        → Mem (some e) (snapshot_for_client_ip s.ciphers p.client_ip)
        → key ≡ (s.ciphers.store e).crypto_key
        → Owner p s key

  pub record Delivered (p : Incoming) (s : UdpState Key) (addr : UdpAddr) (payload : List ℕ)
      : Type 0 where
    pub key : Key
    pub text : List ℕ
    pub owner : Owner p s key
    pub opened : h.shadowsocks.unpack p.packet key ≡ some text
    pub readable : Readable text addr payload

  same_addr :
      {a b : UdpAddr} {q r : List ℕ}
      → ◌≡◌ {A = Option (UdpAddr × List ℕ)} (some (a, q)) (some (b, r))
      → (a ≡ b) × (q ≡ r)
  same_addr e = (ground arith, ground arith)

  known-Delivered :
      (p : Incoming) (s : UdpState Key) (entry : NatConn Key) (addr : UdpAddr) (payload : List ℕ)
      → get (h.text.addr_string p.remote) s.nat ≡ some entry
      → passed (admit_known h p entry) ≡ some (addr, payload)
      → Delivered p s addr payload
  unfolding admit_known judge passed
  known-Delivered p s entry addr payload g e =
      elim (Option-cases (h.shadowsocks.unpack p.packet entry.crypto_key)) [
        | inl shut ↦ cc (rw (shut, admit_known) at e)
        | inr (text, opened) ↦ elim (check_cases (validate_packet h text)) [
          | inl (err, bad) ↦ cc (rw (opened, admit_known, bad, judge) at e)
          | inr ((q, a), v) ↦
              let (a_eq, q_eq) = same_addr (rw (opened, admit_known, v, judge, passed) at e) in
              record {
                key = entry.crypto_key;
                text = text;
                owner = known entry g refl;
                opened = opened;
                readable = allowed-Readable text addr payload (v ∙ (rw (a_eq, q_eq) refl));
              }
        ]
      ]

  opened-Delivered :
      (p : Incoming) (info : IpInfo) (text : List ℕ) (e : ℕ) (s : UdpState Key) (addr : UdpAddr)
      (payload : List ℕ)
      → passed (admit_opened h p info text e s).0 ≡ some (addr, payload)
      → Readable text addr payload
  unfolding admit_opened passed
  opened-Delivered p info text e s addr payload q = elim (check_cases (validate_packet h text)) [
    | inl (err, bad) ↦ cc (rw (bad, admit_opened) at q)
    | inr ((r, a), v) ↦ elim (Option-cases h.net.listen) [
      | inr (err, bad) ↦ cc (rw (v, admit_opened, bad) at q)
      | inl up ↦
          let (a_eq, q_eq) = same_addr (rw (v, admit_opened, up) at q) in
          allowed-Readable text addr payload (v ∙ (rw (a_eq, q_eq) refl))
    ]
  ]

  pub found_cases :
      (r : Outcome (Option (List ℕ × ℕ)))
      → (r ≡ panic) ⊎ (r ≡ done none) ⊎ ((q : List ℕ × ℕ) × (r ≡ done (some (q.0, q.1))))
  found_cases panic = inl refl
  found_cases (done none) = inr (inl refl)
  found_cases (done (some (text, e))) = inr (inr ((text, e), refl))

  -- The state after the search of a key.
  abbrev pub searched : Incoming → UdpState Key → UdpState Key
  searched p s = record s { ciphers = (find_access_key_udp h p.client_ip p.packet s.ciphers).1 }

  new-Delivered :
      (p : Incoming) (s : UdpState Key) (addr : UdpAddr) (payload : List ℕ)
      → passed (admit_new h p s).0 ≡ some (addr, payload)
      → Delivered p s addr payload
  unfolding admit_new find_access_key_udp passed
  new-Delivered p s addr payload q =
      elim (found_cases
        (unpack_entry h s.ciphers p.packet (snapshot_for_client_ip s.ciphers p.client_ip))) [
          | inl bad ↦ cc (rw (bad, admit_new, find_access_key_udp) at q)
          | inr (inl missed) ↦ cc (rw (missed, admit_new, find_access_key_udp) at q)
          | inr (inr ((text, e), found)) ↦
              let (m, o) = unpack_entry-opens s.ciphers p.packet _ text e found in
              record {
                key = (s.ciphers.store e).crypto_key;
                text = text;
                owner = listed e m refl;
                opened = o;
                readable =
                    opened-Delivered p _ text e (searched p s) addr payload
                      (rw (found, admit_new, find_access_key_udp) at q);
              }
        ]

  -- Every packet that is sent to a target is the rest, after the target's address, of a plaintext
  -- that the client's packet was opened to, with the key of the client's entry in the table or with
  -- one of the port's keys; the target is what the address resolves to, and its IP is one that the
  -- validator lets through.
  pub handle_packet-Delivered :
      (p : Incoming) (s : UdpState Key) (addr : UdpAddr) (payload : List ℕ)
      → (handle_packet h p s).0.written ≡ some (addr, payload)
      → Delivered p s addr payload
  unfolding handle_packet
  handle_packet-Delivered p s addr payload w =
      let v : passed (admit h p s).0 ≡ some (addr, payload) =
        sym (conclude-passed p (admit h p s).0 (admit h p s).1).0 ∙ w in
      elim (Option-cases (get (h.text.addr_string p.remote) s.nat)) [
        | inl absent ↦ new-Delivered p s addr payload (rw (absent, admit) at v)
        | inr (entry, g) ↦ known-Delivered p s entry addr payload g (rw (g, admit) at v)
      ]
