-- ===== src/IpInfo/Codes.antt =====
-- The country codes that ipinfo/ipinfo.go reports.
use text.Mathlib.Text.{◌==◌ as str_eq}
use text.Mathlib.TextEquality.{eq_iff}
use outline_ss_server.Prelude.{
  ℕ, ◌≡◌, ◌≢◌, ◌⊎◌, inl, inr, refl, String, false, Option, none, some, List, arith, Bool-cases,
  Option-cases,
}
use outline_ss_server.Net.GoError.{GoError, plain}
use outline_ss_server.Net.Ip.{is_global_unicast}
use outline_ss_server.Net.Text.{NetAddr, nil_addr, NetText}
use outline_ss_server.IpInfo.{
  IpInfo, IpInfoMap, after_lookup, no_info, with_country, err_parse_addr, get_ip_info_from_ip,
  get_ip_info_from_addr,
}

ne_of_str_eq : (s t : String) → str_eq s t ≡ false → s ≢ t
ne_of_str_eq s t h e = cc (h, (eq_iff s t).1 e)

abbrev Filled : String → Type 0
Filled s = str_eq s "" ≡ false

after_lookup-Filled :
    (info : IpInfo) (err : Option GoError) → Filled (after_lookup info err).country_code
unfolding after_lookup
after_lookup-Filled info none = elim (Bool-cases (str_eq info.country_code "")) [
  | inl empty ↦ rw empty refl
  | inr full ↦ rw full full
]
after_lookup-Filled info (some g) = refl

from_ip-Filled :
    (m : IpInfoMap) (ip : Option (List ℕ)) → Filled (get_ip_info_from_ip (some m) ip).0.country_code
unfolding get_ip_info_from_ip
from_ip-Filled m none = refl
from_ip-Filled m (some ip) = elim (Bool-cases (is_global_unicast ip)) [
  | inl global ↦ rw global (after_lookup-Filled (m ip).0 (m ip).1)
  | inr local ↦ rw local refl
]

from_ip-error :
    (m : Option IpInfoMap) (ip : Option (List ℕ)) (e : GoError)
    → (get_ip_info_from_ip m ip).1 ≡ some e
    → ((get_ip_info_from_ip m ip).0.country_code ≡ "XA")
      ⊎ ((get_ip_info_from_ip m ip).0.country_code ≡ "XD")
unfolding get_ip_info_from_ip after_lookup
from_ip-error none ip e h = cc
from_ip-error (some m) none e h = inl refl
from_ip-error (some m) (some ip) e h = elim (Bool-cases (is_global_unicast ip)) [
  | inl global ↦ inr (rw (global, (rw global at h)) refl)
  | inr local ↦ ground arith
]

-- What holds of every answer on a parsed IP and of the answer to an unparsable address holds of
-- every answer on an address.
from_addr_cases {ℓ} :
    (P : IpInfo × Option GoError → Type ℓ) (text : NetText) (m : Option IpInfoMap) (addr : NetAddr)
    → ((e : String) → P (with_country no_info err_parse_addr, some (plain e)))
    → ((ip : List ℕ) → P (get_ip_info_from_ip m (some ip)))
    → P (get_ip_info_from_addr text m addr)
unfolding get_ip_info_from_addr
from_addr_cases P text m nil_addr bad good = bad _
from_addr_cases P text m addr bad good =
    elim (Option-cases (text.split_host (text.addr_string addr))) [
      | inl e ↦ rw (e, get_ip_info_from_addr) (bad _)
      | inr (host, e) ↦ elim (Option-cases (text.parse_ip host)) [
        | inl f ↦ rw (e, get_ip_info_from_addr) (rw (f, get_ip_info_from_addr) (bad _))
        | inr (ip, f) ↦ rw (e, get_ip_info_from_addr) (rw (f, get_ip_info_from_addr) (good ip))
      ]
    ]

-- With a map, every address, nil and unparsable ones included, gets a country code that is not
-- empty, whatever the lookup answers.
pub country_code-ne-empty :
    (text : NetText) (m : IpInfoMap) (addr : NetAddr)
    → (get_ip_info_from_addr text (some m) addr).0.country_code ≢ ""
country_code-ne-empty text m addr = ne_of_str_eq _ "" (
    from_addr_cases (λ r. Filled r.0.country_code) text (some m) addr (λ e. refl)
      (λ ip. from_ip-Filled m (some ip)))

-- An error comes with the code XA or XD, with a map and without one.
pub country_code_of_error :
    (text : NetText) (m : Option IpInfoMap) (addr : NetAddr) (e : GoError)
    → (get_ip_info_from_addr text m addr).1 ≡ some e
    → ((get_ip_info_from_addr text m addr).0.country_code ≡ "XA")
      ⊎ ((get_ip_info_from_addr text m addr).0.country_code ≡ "XD")
country_code_of_error text m addr e =
    from_addr_cases (λ r. r.1 ≡ some e → (r.0.country_code ≡ "XA") ⊎ (r.0.country_code ≡ "XD")) text
      m addr (λ s h. inl refl) (λ ip. from_ip-error m (some ip) e)
