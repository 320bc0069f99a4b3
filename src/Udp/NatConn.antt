-- ===== src/Udp/NatConn.antt =====
-- service/udp.go: `natconn`, the target socket of a client, and its deadlines in nanoseconds.
use outline_ss_server.Prelude.{
  ℕ, ◌+◌, ◌*◌, ◌^◌, Bool, true, false, not, ◌||◌, Option, none, some, List, [], ◌∷◌, ltb,
  if◌then◌else◌,
}
use outline_ss_server.IpInfo.{IpInfo}

-- `none` is the zero time. `deadline` is what `SetReadDeadline` last gave the socket, and
-- `fast_close` tells that the `sync.Once` has run.
pub record NatConn (Key : Type 0) : Type 0 where
  pub crypto_key : Key
  pub key_id : List ℕ
  pub client_info : IpInfo
  pub default_timeout : ℕ
  pub read_deadline : Option ℕ
  pub fast_close : Bool
  pub deadline : Option ℕ

abbrev pub dns_timeout : ℕ
dns_timeout = 17 * 10 ^ 9

-- `t.After(d)`: the zero time is before every reading of the clock.
unfoldable pub after : ℕ → Option ℕ → Bool
after t none = true
after t (some d) = ltb d t

unfoldable pub is_zero : Option ℕ → Bool
is_zero none = true
is_zero (some d) = false

abbrev pub timeout_of : {Key : Type 0} → NatConn Key → Bool → ℕ
timeout_of c dns = if dns then dns_timeout else c.default_timeout

module _ {Key : Type 0} where
  -- A write to an address, which is on port 53 or not, at a time.
  unfoldable pub on_write : Bool → ℕ → NatConn Key → NatConn Key
  unfolding after is_zero
  on_write dns now c =
      let once = not dns || not (is_zero c.read_deadline) || c.fast_close in
      let new_deadline = now + timeout_of c dns in
      if after new_deadline c.read_deadline
      then record c {
        fast_close = once;
        read_deadline = some new_deadline;
        deadline = some new_deadline;
      }
      else record c { fast_close = once }

  -- A read from an address, which is on port 53 or not, at a time.
  unfoldable pub on_read : Bool → ℕ → NatConn Key → NatConn Key
  on_read dns now c =
      if c.fast_close
      then c
      else (if dns
          then record c { fast_close = true; deadline = some now }
          else record c { fast_close = true })

-- The packets that pass through a socket.
pub data Traffic : Type 0 where
  sent : Bool → ℕ → Traffic
  received : Bool → ℕ → Traffic

module _ {Key : Type 0} where
  unfoldable pub run : List Traffic → NatConn Key → NatConn Key
  unfolding on_write on_read
  run [] c = c
  run (sent dns now ∷ ts) c = run ts (on_write dns now c)
  run (received dns now ∷ ts) c = run ts (on_read dns now c)
