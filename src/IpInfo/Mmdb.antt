-- ===== src/IpInfo/Mmdb.antt =====
-- ipinfo/mmdb.go. A `*geoip2.Reader` is what its lookup answers and what its `Close` returns.
use text.Mathlib.Text.{◌==◌ as str_eq}
use outline_ss_server.Prelude.{
  ℕ, ◌≡◌, ◌↔◌, refl, String, Option, none, some, List, if◌then◌else◌, arith,
}
use outline_ss_server.Net.GoError.{GoError, wrapped, join}
use outline_ss_server.IpInfo.{IpInfo, no_info}

-- A lookup fails, finds no record (nil), or finds one: the ISO code, or the system number.
pub data Lookup (A : Type 0) : Type 0 where
  failed : GoError → Lookup A
  missing : Lookup A
  found : A → Lookup A

pub record Reader (A : Type 0) : Type 0 where
  pub lookup : List ℕ → Lookup A
  pub close : Option GoError

-- `geoip2.Open`
pub data Opened (A : Type 0) : Type 0 where
  opened : Reader A → Opened A
  refused : GoError → Opened A

-- `none` is a nil reader.
pub record MmdbIpInfoMap : Type 0 where
  pub country_db : Option (Reader String)
  pub asn_db : Option (Reader ℕ)

module _ {A : Type 0} where
  -- A path that is empty opens nothing.
  open_if : (String → Opened A) → String → Option (Reader A) × Option GoError
  open_if open_db path =
      if str_eq path ""
      then (none, none)
      else elim (open_db path) [ opened r ↦ (some r, none) | refused e ↦ (none, some e) ]

  close_if : Option (Reader A) → Option GoError
  close_if none = none
  close_if (some r) = r.close

unfoldable pub new_mmdb_ip_info_map :
    (String → Opened String)
    → (String → Opened ℕ)
    → String
    → String
    → MmdbIpInfoMap × Option GoError
unfolding open_if
new_mmdb_ip_info_map open_country open_asn country_path asn_path =
    let (country, country_err) = open_if open_country country_path in
    let (asn, asn_err) = open_if open_asn asn_path in
    (record { country_db = country; asn_db = asn }, join country_err asn_err)

pub close : MmdbIpInfoMap → Option GoError
unfolding close_if
close m = join (close_if m.country_db) (close_if m.asn_db)

-- The answers of one database: a value to store, and an error.
country_part : Option (Reader String) → List ℕ → String × Option GoError
country_part none ip = ("", none)
country_part (some db) ip = elim (db.lookup ip) [
  | failed e ↦ ("", some (wrapped "country lookup failed" e))
  | missing ↦ ("", none)
  | found iso ↦ if str_eq iso "" then ("", none) else (iso, none)
]

asn_part : Option (Reader ℕ) → List ℕ → ℕ × Option GoError
asn_part none ip = (0, none)
asn_part (some db) ip = elim (db.lookup ip) [
  | failed e ↦ (0, some (wrapped "asn lookup failed" e))
  | missing ↦ (0, none)
  | found n ↦ (n, none)
]

-- `none` is a nil `*MMDBIPInfoMap`.
pub get_ip_info : Option MmdbIpInfoMap → List ℕ → IpInfo × Option GoError
unfolding country_part asn_part
get_ip_info none ip = (no_info, none)
get_ip_info (some m) ip =
    let (code, country_err) = country_part m.country_db ip in
    let (asn, asn_err) = asn_part m.asn_db ip in
    (record { country_code = code; asn = asn }, join country_err asn_err)

-- A database that fails does not hide the other: the country is the one that the country database
-- gives with the ASN database gone, and the ASN the one that the ASN database gives alone; and
-- the lookup succeeds exactly when both lookups alone do.
pub get_ip_info-independent :
    (m : MmdbIpInfoMap) (ip : List ℕ)
    → let country_only = get_ip_info (some (record m { asn_db = none })) ip in
      let asn_only = get_ip_info (some (record m { country_db = none })) ip in
      ((get_ip_info (some m) ip).0.country_code ≡ country_only.0.country_code)
      × ((get_ip_info (some m) ip).0.asn ≡ asn_only.0.asn)
      × (((get_ip_info (some m) ip).1 ≡ none) ↔ ((country_only.1 ≡ none) × (asn_only.1 ≡ none)))
unfolding get_ip_info join
get_ip_info-independent m ip = (refl, refl, ground arith)
