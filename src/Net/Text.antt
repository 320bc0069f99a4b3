-- ===== src/Net/Text.antt =====
-- Network addresses, and the functions of Go's packages net and netip that go through their text.
use outline_ss_server.Prelude.{ℕ, String, Option, List}

-- A `net.Addr`: nil, a `*net.TCPAddr` or `*net.UDPAddr` (its IP, zone and port), or another one,
-- known by its `String()`.
pub data NetAddr : Type 0 where
  nil_addr : NetAddr
  inet_addr : List ℕ → List ℕ → ℕ → NetAddr
  other_addr : String → NetAddr

-- `Addr.String`, the host of `net.SplitHostPort`, `net.ParseIP` and `IP.String`; `none` is an
-- error, or the nil of `ParseIP`.
pub record NetText : Type 0 where
  pub addr_string : NetAddr → String
  pub split_host : String → Option String
  pub parse_ip : String → Option (List ℕ)
  pub ip_string : List ℕ → String
