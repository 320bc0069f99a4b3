-- ===== src/IpInfo.antt =====
-- ipinfo/ipinfo.go and ipinfo/mmdb.go: the country and the ASN of a client.
pub mod Codes
pub mod Mmdb
mod Tests
use text.Mathlib.Text.{◌==◌ as str_eq}
use outline_ss_server.Prelude.{
  ℕ, String, Bool, true, false, not, Option, none, some, List, if◌then◌else◌,
}
use outline_ss_server.Net.GoError.{GoError, plain}
use outline_ss_server.Net.Ip.{is_global_unicast}
use outline_ss_server.Net.Text.{NetAddr, nil_addr, NetText}

pub record IpInfo : Type 0 where
  pub country_code : String
  pub asn : ℕ

abbrev pub no_info : IpInfo
no_info = record { country_code = ""; asn = 0 }

abbrev pub err_parse_addr : String
err_parse_addr = "XA"

abbrev pub local_location : String
local_location = "XL"

abbrev pub err_db_lookup_error : String
err_db_lookup_error = "XD"

abbrev pub unknown_location : String
unknown_location = "ZZ"

-- `GetIPInfo` of an `IPInfoMap`: an information and perhaps an error.
abbrev pub IpInfoMap : Type 0
IpInfoMap = List ℕ → IpInfo × Option GoError

abbrev with_country : IpInfo → String → IpInfo
with_country info code = record info { country_code = code }

-- The two tests after the lookup.
after_lookup : IpInfo → Option GoError → IpInfo
after_lookup info err =
    let checked : IpInfo = elim err [
      | none ↦ info
      | some _ ↦ with_country info err_db_lookup_error
    ] in
    if str_eq checked.country_code "" then with_country checked unknown_location else checked

-- `none` is a nil map, or a nil IP.
pub get_ip_info_from_ip : Option IpInfoMap → Option (List ℕ) → IpInfo × Option GoError
unfolding after_lookup
get_ip_info_from_ip none ip = (no_info, none)
get_ip_info_from_ip (some get_ip_info) none =
    (with_country no_info err_parse_addr, some (plain "IP cannot be nil"))
get_ip_info_from_ip (some get_ip_info) (some ip) =
    if not (is_global_unicast ip)
    then (with_country no_info local_location, none)
    else (let (info, err) = get_ip_info ip in (after_lookup info err, err))

pub get_ip_info_from_addr : NetText → Option IpInfoMap → NetAddr → IpInfo × Option GoError
unfolding get_ip_info_from_ip
get_ip_info_from_addr text ip2info nil_addr =
    (with_country no_info err_parse_addr, some (plain "address cannot be nil"))
get_ip_info_from_addr text ip2info addr = elim (text.split_host (text.addr_string addr)) [
  | none ↦ (with_country no_info err_parse_addr, some (plain "failed to split hostname and port"))
  | some hostname ↦ elim (text.parse_ip hostname) [
    | none ↦ (with_country no_info err_parse_addr, some (plain "failed to parse address as IP"))
    | some ip ↦ get_ip_info_from_ip ip2info (some ip)
  ]
]
