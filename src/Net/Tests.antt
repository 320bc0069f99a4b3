-- ===== src/Net/Tests.antt =====
-- Runs of the functions of net/private_net.go and net/error.go.
use Prim.Native.Nat.{ℕ}
use outline_ss_server.Prelude.{◌≡◌, refl, true, none, some, List, [], ◌∷◌, arith}
use outline_ss_server.Net.Ip.{is_global_unicast}
use outline_ss_server.Net.GoError.{
  plain, ConnectionError, new_connection_error, connection_error_text,
}
use outline_ss_server.Net.Private.{is_private_address, require_public_ip}
use outline_ss_server.Net.Ranges.{status_of, require_public_ip_v4}

private_test : is_private_address (172 ∷ 31 ∷ 0 ∷ 1 ∷ []) ≡ true
unfolding is_private_address
private_test = refl

public_test : status_of (require_public_ip (λ _. "") (8 ∷ 8 ∷ 8 ∷ 8 ∷ [])) ≡ none
unfolding require_public_ip is_global_unicast is_private_address
public_test = refl

text_test :
    connection_error_text (some (new_connection_error "ERR_READ" "Failed" (some (plain "EOF"))))
    ≡ "Failed [ERR_READ]: EOF"
unfolding connection_error_text new_connection_error
text_test = refl

require_public_ip_v4_example :
    status_of (require_public_ip (λ _. "") (127 ∷ 0 ∷ 0 ∷ 1 ∷ [])) ≡ some "ERR_ADDRESS_INVALID"
require_public_ip_v4_example =
    require_public_ip_v4 (λ _. "") 127 0 0 1 (omega arith) (omega arith) (omega arith) (omega arith)

abbrev zeros15 : List ℕ
zeros15 = 0 ∷ 0 ∷ 0 ∷ 0 ∷ 0 ∷ 0 ∷ 0 ∷ 0 ∷ 0 ∷ 0 ∷ 0 ∷ 0 ∷ 0 ∷ 0 ∷ 1 ∷ []

abbrev refused : ConnectionError
refused = record { status = "ERR_ADDRESS_PRIVATE"; message = "Address is private: "; cause = none }
