-- ===== src/IpInfo/Tests.antt =====
-- Runs of the lookups of ipinfo/ipinfo.go and ipinfo/mmdb.go.
use outline_ss_server.Prelude.{ℕ, ◌≡◌, refl, none, some, List, [], ◌∷◌}
use outline_ss_server.Net.GoError.{plain}
use outline_ss_server.Net.Ip.{is_global_unicast}
use outline_ss_server.Net.Text.{NetAddr, inet_addr, NetText}
use outline_ss_server.IpInfo.{IpInfoMap, no_info, get_ip_info_from_addr}
use outline_ss_server.IpInfo.Mmdb.{MmdbIpInfoMap, found, failed}

-- Every address reads as 8.8.8.8.
abbrev toy_text : NetText
toy_text = record {
  addr_string = λ a. "8.8.8.8:53";
  split_host = λ s. some "8.8.8.8";
  parse_ip = λ s. some (8 ∷ 8 ∷ 8 ∷ 8 ∷ []);
  ip_string = λ ip. "8.8.8.8";
}

abbrev broken : IpInfoMap
broken ip = (no_info, some (plain "no database"))

abbrev client : NetAddr
client = inet_addr (8 ∷ 8 ∷ 8 ∷ 8 ∷ []) [] 53

broken_test : (get_ip_info_from_addr toy_text (some broken) client).0.country_code ≡ "XD"
unfolding get_ip_info_from_addr is_global_unicast
broken_test = refl

failed_lookup : (get_ip_info_from_addr toy_text (some broken) client).1 ≡ some (plain "no database")
unfolding get_ip_info_from_addr is_global_unicast
failed_lookup = refl

abbrev half_open : MmdbIpInfoMap
half_open = record {
  country_db = some (record { lookup = λ ip. failed (plain "corrupt"); close = none });
  asn_db = some (record { lookup = λ ip. found 15169; close = none });
}

abbrev google : List ℕ
google = 8 ∷ 8 ∷ 8 ∷ 8 ∷ []
