-- ===== src/Udp/Replies.antt =====
-- service/udp.go: what `timedCopy` sends to a client.
use outline_ss_server.Prelude.{
  ℕ, ◌+◌, ◌-◌, ◌≤◌, ◌≡◌, refl, ◌∙◌, inl, inr, Bool, true, false, none, List, [], ◌∷◌, ◌++◌, length,
  take, drop, length-take, length-drop, arith, All, Bool-cases,
}
use outline_ss_server.Cipher.{Shadowsocks}
use outline_ss_server.Tcp.State.{done}
use outline_ss_server.Udp.NatConn.{NatConn, on_read}
use outline_ss_server.Udp.Copy.{
  ClientNet, Arrival, packet, timed_out, read_error, Returned, is_dns, body_start, send, copy_turn,
  copy_loop, timed_copy, server_udp_buffer_size,
}
use outline_ss_server.Udp.Layout.{length-replicate, slice_inside, pack_turn_lem}

-- Whether the copy meets a timeout.
unfoldable pub ends : List (ℕ × Arrival) → Bool
ends [] = false
ends ((now, timed_out) ∷ as') = true
ends ((now, read_error n e) ∷ as') = ends as'
ends ((now, packet body raddr) ∷ as') = ends as'

module _ {Key : Type 0} where
  on_read-key :
      (dns : Bool) (now : ℕ) (c : NatConn Key) → (on_read dns now c).crypto_key ≡ c.crypto_key
  unfolding on_read
  on_read-key dns now c = elim (Bool-cases c.fast_close) [
    | inl h ↦ rw h refl
    | inr h ↦ elim (Bool-cases dns) [ inl d ↦ rw (h, d) refl | inr d ↦ rw (h, d) refl ]
  ]

module _ {Key : Type 0} (ss : Shadowsocks Key) (net : ClientNet Key) where
  -- An address that has room in front of the body.
  unfoldable pub Short : ℕ × Arrival → Type 0
  Short (now, packet body raddr) = length (net.parse_addr raddr) ≤ net.max_addr_len
  Short (now, timed_out) = Unit
  Short (now, read_error n e) = Unit

  -- The part of a body that the buffer has room for.
  unfoldable pub received : Key → List ℕ → List ℕ
  received key body = take (server_udp_buffer_size - body_start ss net key) body

  -- What should be reported and sent: for each packet before a timeout, its address and body, packed; an
  -- error of a read is reported and passed over.
  unfoldable pub replies : Key → List (ℕ × Arrival) → List Returned
  unfolding received
  replies key [] = []
  replies key ((now, timed_out) ∷ as') = []
  replies key ((now, read_error n e) ∷ as') =
      record { status = "ERR_READ"; body_len = n; proxy_client_bytes = 0; written = none }
      ∷ replies key as'
  replies key ((now, packet body raddr) ∷ as') =
      let src = net.parse_addr raddr in
      let text = received key body in
      send ss net (length text)
        (net.pack (server_udp_buffer_size - (net.max_addr_len - length src)) (src ++ text) key)
      ∷ replies key as'

  copy_loop_lem :
      (as' : List (ℕ × Arrival)) (c : NatConn Key) (b : List ℕ)
      → length b ≡ server_udp_buffer_size
      → body_start ss net c.crypto_key ≤ server_udp_buffer_size
      → All Short as'
      → copy_loop ss net as' (c, b) ≡ done (replies c.crypto_key as', ends as')
  unfolding copy_loop copy_turn replies received ends Short
  copy_loop_lem [] c b len room short = refl
  copy_loop_lem ((now, timed_out) ∷ as') c b len room short = refl
  copy_loop_lem ((now, read_error n e) ∷ as') c b len room (x, short) =
      rw (copy_loop_lem as' c b len room short) refl
  copy_loop_lem ((now, packet body raddr) ∷ as') c b len room (x, short) =
      let s = body_start ss net c.crypto_key in
      let text = received c.crypto_key body in
      let read_buf : List ℕ = take (length b - s) (drop s b) in
      let size : length read_buf ≡ server_udp_buffer_size - s =
        length-take (length b - s) (drop s b) ∙ (rw (length-drop s b) (omega arith)) in
      let fits : s + length text ≤ length b =
        (rw (length-take (server_udp_buffer_size - s) body) (omega arith)) in
      let (left, kept, packed) =
        pack_turn_lem ss net c.crypto_key (net.parse_addr raddr) text b x fits in
      let c' = on_read (is_dns raddr) now c in
      let key : c'.crypto_key ≡ c.crypto_key = on_read-key (is_dns raddr) now c in
      let rest = copy_loop_lem as' c' left (kept ∙ len) (rw key room) short in
      rw (slice_inside s (length b) b (omega arith) (omega arith), size, packed, rest, key, len)
        refl

  -- If the address of each packet is no longer than an IPv6 address and the header fits into the buffer,
  -- then no slice of the buffer is out of range, and each packet that arrives before a timeout is packed
  -- for the client as its source address and then its body, as far as the body fits; nothing of an
  -- earlier packet is sent. An error of a read is reported, and the copy goes on until a timeout.
  pub timed_copy-replies :
      (as' : List (ℕ × Arrival)) (c : NatConn Key)
      → body_start ss net c.crypto_key ≤ server_udp_buffer_size
      → All Short as'
      → timed_copy ss net as' c ≡ done (replies c.crypto_key as', ends as')
  unfolding timed_copy
  timed_copy-replies as' c room short =
      copy_loop_lem as' c _ (length-replicate server_udp_buffer_size 0) room short
