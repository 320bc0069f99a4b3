-- ===== src/Udp/Unsent.antt =====
-- What a packet of service/udp.go that is not sent on leaves alone.

use outline_ss_server.Prelude.{ℕ, ◌≡◌, refl, ap, sym, ◌∙◌, inl, inr, none, List, Option-cases}
use outline_ss_server.IpInfo.{IpInfo}
use outline_ss_server.Cipher.{snapshot_for_client_ip}
use outline_ss_server.Udp.NatMap.{get}
use outline_ss_server.Udp.Admission.{passed, conclude-passed, check_cases, found_cases, searched}
use outline_ss_server.Udp.Packet.{
  PacketHandler, UdpState, Incoming, unpack_entry, find_access_key_udp, validate_packet,
  admit_opened, admit_new, admit, handle_packet,
}

abbrev Untouched : {Key : Type 0} → UdpState Key → UdpState Key → Type 0
Untouched s s' = (s'.nat ≡ s.nat) × (s'.sockets ≡ s.sockets)

module _ {Key : Type 0} (h : PacketHandler Key) where
  opened-unsent :
      (p : Incoming) (info : IpInfo) (text : List ℕ) (e : ℕ) (s : UdpState Key)
      → passed h (admit_opened h p info text e s).0 ≡ none
      → Untouched s (admit_opened h p info text e s).1
  unfolding admit_opened passed
  opened-unsent p info text e s q = elim (check_cases h (validate_packet h text)) [
    | inl (err, bad) ↦ rw (bad, admit_opened) (refl, refl)
    | inr ((r, a), v) ↦ elim (Option-cases h.net.listen) [
      | inr (err, bad) ↦ rw (v, admit_opened, bad) (refl, refl)
      | inl up ↦ cc (rw (v, admit_opened, up) at q)
    ]
  ]

  new-unsent :
      (p : Incoming) (s : UdpState Key)
      → passed h (admit_new h p s).0 ≡ none
      → Untouched s (admit_new h p s).1
  unfolding admit_new find_access_key_udp
  new-unsent p s q =
      elim (found_cases h
        (unpack_entry h s.ciphers p.packet (snapshot_for_client_ip s.ciphers p.client_ip))) [
          | inl bad ↦ rw (bad, admit_new, find_access_key_udp) (refl, refl)
          | inr (inl missed) ↦ rw (missed, admit_new, find_access_key_udp) (refl, refl)
          | inr (inr ((text, e), found)) ↦
              rw (found, admit_new, find_access_key_udp)
                (opened-unsent p _ text e (searched h p s)
                  (rw (found, admit_new, find_access_key_udp) at q))
        ]

  admit-unsent :
      (p : Incoming) (s : UdpState Key)
      → passed h (admit h p s).0 ≡ none
      → Untouched s (admit h p s).1
  unfolding admit
  admit-unsent p s v = elim (Option-cases (get (h.text.addr_string p.remote) s.nat)) [
    | inl absent ↦ rw (absent, admit) (new-unsent p s (rw (absent, admit) at v))
    | inr (entry, g) ↦ rw (g, admit) (refl, refl)
  ]

  -- A packet that is not sent on, because no key opens it, it has no valid address, its target is
  -- refused, no socket can be had for it or its handling panics, leaves the NAT table with its deadlines
  -- as it was, and no socket has been opened for it.
  pub handle_packet_unsent :
      (p : Incoming) (s : UdpState Key)
      → (handle_packet h p s).0.written ≡ none
      → ((handle_packet h p s).1.nat ≡ s.nat) × ((handle_packet h p s).1.sockets ≡ s.sockets)
  unfolding handle_packet
  handle_packet_unsent p s w =
      let (sent_on, kept) = conclude-passed h p (admit h p s).0 (admit h p s).1 in
      let v : passed h (admit h p s).0 ≡ none = sym sent_on ∙ w in
      let (nat, sockets) = admit-unsent p s v in
      (
        ap (λ (x : UdpState Key). x.nat) (kept v) ∙ nat,
        ap (λ (x : UdpState Key). x.sockets) (kept v) ∙ sockets,
      )
