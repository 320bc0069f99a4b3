-- ===== src/Net/Private.antt =====
-- net/private_net.go
use outline_ss_server.Prelude.{
  ℕ, String, Bool, true, false, not, Option, none, some, List, [], ◌∷◌, if◌then◌else◌,
}
use outline_ss_server.Net.Ip.{IpNet, contains, is_global_unicast}
use outline_ss_server.Net.GoError.{◌<>◌, ConnectionError, new_connection_error}

-- `init`: the networks that `net.ParseCIDR` makes of the five literals.
abbrev pub private_networks : List IpNet
private_networks =
    record { ip = 10 ∷ 0 ∷ 0 ∷ 0 ∷ []; mask = 255 ∷ 0 ∷ 0 ∷ 0 ∷ [] }
    ∷ record { ip = 172 ∷ 16 ∷ 0 ∷ 0 ∷ []; mask = 255 ∷ 240 ∷ 0 ∷ 0 ∷ [] }
    ∷ record { ip = 192 ∷ 168 ∷ 0 ∷ 0 ∷ []; mask = 255 ∷ 255 ∷ 0 ∷ 0 ∷ [] }
    ∷ record {
      ip = 0xfc ∷ 0 ∷ 0 ∷ 0 ∷ 0 ∷ 0 ∷ 0 ∷ 0 ∷ 0 ∷ 0 ∷ 0 ∷ 0 ∷ 0 ∷ 0 ∷ 0 ∷ 0 ∷ [];
      mask = 0xfe ∷ 0 ∷ 0 ∷ 0 ∷ 0 ∷ 0 ∷ 0 ∷ 0 ∷ 0 ∷ 0 ∷ 0 ∷ 0 ∷ 0 ∷ 0 ∷ 0 ∷ 0 ∷ [];
    }
    ∷ record { ip = 100 ∷ 64 ∷ 0 ∷ 0 ∷ []; mask = 255 ∷ 192 ∷ 0 ∷ 0 ∷ [] }
    ∷ []

any_contains : List IpNet → List ℕ → Bool
unfolding contains
any_contains [] ip = false
any_contains (n ∷ ns) ip = if contains n ip then true else any_contains ns ip

unfoldable pub is_private_address : List ℕ → Bool
unfolding any_contains
is_private_address ip = any_contains private_networks ip

-- `none` is nil: the address is public. `ip_string` stands for `String` of `net.IP`.
unfoldable pub require_public_ip : (List ℕ → String) → List ℕ → Option ConnectionError
unfolding new_connection_error
require_public_ip ip_string ip =
    if not (is_global_unicast ip)
    then some (
        new_connection_error "ERR_ADDRESS_INVALID"
          ("Address is not global unicast: " <> ip_string ip) none)
    else (if is_private_address ip
        then some (
            new_connection_error "ERR_ADDRESS_PRIVATE" ("Address is private: " <> ip_string ip)
              none)
        else none)
