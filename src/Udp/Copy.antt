-- ===== src/Udp/Copy.antt =====
-- service/udp.go: `timedCopy`, which brings the packets of targets back to a client. A slice expression
-- out of range is a panic, and no `recover` stands around this one.
use outline_ss_server.Prelude.{
  ℕ, ◌+◌, ◌-◌, ◌*◌, String, ◌⊎◌, inl, inr, Bool, true, false, ◌&&◌, Option, none, some, List, [],
  ◌∷◌, ◌++◌, leb, ◌==◌, if◌then◌else◌, length, take, drop, replicate,
}
use outline_ss_server.Net.GoError.{GoError}
use outline_ss_server.Net.Text.{NetAddr, nil_addr, inet_addr, other_addr}
use outline_ss_server.Cipher.{Shadowsocks}
use outline_ss_server.Tcp.State.{Outcome, done, panic}
use outline_ss_server.Udp.NatConn.{NatConn, on_read}

abbrev pub server_udp_buffer_size : ℕ
server_udp_buffer_size = 64 * 1024

-- `socks.ParseAddr` of the text of an address, which is nil if it has none; `Pack` of a plaintext into a
-- slice of some length, with the key and its random salt, and what it leaves in the slice, in which the
-- plaintext stands; and the write to the client.
pub record ClientNet (Key : Type 0) : Type 0 where
  pub parse_addr : NetAddr → List ℕ
  pub max_addr_len : ℕ
  pub pack : ℕ → List ℕ → Key → GoError ⊎ List ℕ
  pub pack_leaves : List ℕ → List ℕ → Key → List ℕ
  pub write_to : List ℕ → ℕ × Option GoError

-- What `ReadFrom` meets: a packet, a timeout, or another error with
-- a number of bytes.
pub data Arrival : Type 0 where
  packet : List ℕ → NetAddr → Arrival
  timed_out : Arrival
  read_error : ℕ → GoError → Arrival

-- `AddUDPPacketFromTarget`, and what was written to the client.
pub record Returned : Type 0 where
  pub status : String
  pub body_len : ℕ
  pub proxy_client_bytes : ℕ
  pub written : Option (List ℕ)

pub data Turn : Type 0 where
  expired : Turn
  reported : Returned → Turn

unfoldable pub is_dns : NetAddr → Bool
is_dns (inet_addr ip zone port) = port == 53
is_dns nil_addr = false
is_dns (other_addr s) = false

-- `b[lo:hi]`
unfoldable pub slice : ℕ → ℕ → List ℕ → Outcome (List ℕ)
slice lo hi b = if leb lo hi && leb hi (length b) then done (take (hi - lo) (drop lo b)) else panic

-- A difference that is the bound of a slice.
unfoldable pub bound : ℕ → ℕ → Outcome ℕ
bound a b = if leb b a then done (a - b) else panic

-- What is in a buffer after bytes are copied to a place in it.
unfoldable pub write_at : ℕ → List ℕ → List ℕ → List ℕ
write_at start bs b =
    let room = length b - start in take start b ++ (take room bs ++ drop (start + length bs) b)

abbrev pub and_then : {A B : Type 0} → Outcome A → (A → Outcome B) → Outcome B
and_then (done a) f = f a
and_then panic f = panic

module _ {Key : Type 0} (ss : Shadowsocks Key) (net : ClientNet Key) where
  unfoldable pub body_start : Key → ℕ
  body_start key = ss.salt_size key + net.max_addr_len

  -- What is done with the packed bytes, for a body of some length.
  unfoldable pub send : ℕ → GoError ⊎ List ℕ → Returned
  send body_len (inl e) = record {
    status = "ERR_PACK";
    body_len = body_len;
    proxy_client_bytes = 0;
    written = none;
  }
  send body_len (inr buf) = record {
    status = elim (net.write_to buf).1 [ none ↦ "OK" | some e ↦ "ERR_WRITE" ];
    body_len = body_len;
    proxy_client_bytes = (net.write_to buf).0;
    written = some buf;
  }

  -- A packet that was read into the buffer: the buffer's text is the address and the body.
  unfoldable pub pack_turn : Key → ℕ → List ℕ → List ℕ → Outcome (Returned × List ℕ)
  unfolding body_start slice bound write_at send
  pack_turn key body_len src_addr pkt =
      and_then (bound (body_start key) (length src_addr)) (λ addr_start.
        and_then (slice addr_start (body_start key + body_len) pkt) (λ _.
          let pkt' = write_at addr_start src_addr pkt in
          and_then (slice addr_start (body_start key + body_len) pkt') (λ plaintext_buf.
            and_then (bound addr_start (ss.salt_size key)) (λ salt_start.
              and_then (slice salt_start (length pkt') pkt') (λ pack_buf.
                let left = net.pack_leaves pack_buf plaintext_buf key in
                done (
                  send body_len (net.pack (length pack_buf) plaintext_buf key),
                  write_at salt_start left pkt',
                ))))))

  -- A turn of the loop on what arrives at a time, with the buffer that the turn before left.
  unfoldable pub copy_turn :
      ℕ → Arrival → NatConn Key × List ℕ → Outcome (Turn × NatConn Key × List ℕ)
  unfolding pack_turn is_dns
  copy_turn now timed_out (c, pkt) = done (expired, c, pkt)
  copy_turn now (read_error n e) (c, pkt) = done (
    reported (record { status = "ERR_READ"; body_len = n; proxy_client_bytes = 0; written = none }),
    c,
    pkt,
  )
  copy_turn now (packet body raddr) (c, pkt) =
      and_then (slice (body_start c.crypto_key) (length pkt) pkt) (λ read_buf.
        let bytes = take (length read_buf) body in
        let pkt' = write_at (body_start c.crypto_key) bytes pkt in
        and_then (pack_turn c.crypto_key (length bytes) (net.parse_addr raddr) pkt')
          (λ r. done (reported r.0, on_read (is_dns raddr) now c, r.1)))

  -- The loop, over what arrives: the reports, and whether the copy has ended, as it does at a timeout.
  unfoldable pub copy_loop :
      List (ℕ × Arrival) → NatConn Key × List ℕ → Outcome (List Returned × Bool)
  unfolding copy_turn
  copy_loop [] s = done ([], false)
  copy_loop ((now, a) ∷ as') s = and_then (copy_turn now a s) (λ r. elim r.0 [
    | expired ↦ done ([], true)
    | reported x ↦ and_then (copy_loop as' (r.1, r.2)) (λ q. done (x ∷ q.0, q.1))
  ])

  unfoldable pub timed_copy : List (ℕ × Arrival) → NatConn Key → Outcome (List Returned × Bool)
  unfolding copy_loop
  timed_copy as' c = copy_loop as' (c, replicate server_udp_buffer_size 0)
