-- ===== src/Tcp/Dial.antt =====
-- `makeValidatingTCPStreamDialer` of service/tcp.go: the dialer of the standard library with a
-- `Control` function.
use outline_ss_server.Prelude.{
  ℕ, ◌<◌, ◌≡◌, ap, sym, ◌∙◌, String, Option, none, some, inl, inr, List, Option-cases,
}
use outline_ss_server.Net.GoError.{GoError, ConnectionError, to_error}
use outline_ss_server.Net.Private.{require_public_ip}
use outline_ss_server.Net.Ranges.{
  expected_status4, status_of, mapped, require_public_ip_v4, require_public_ip-mapped,
}

pub data Dialed : Type 0 where
  connected : String → Dialed
  dial_failed : GoError → Dialed

-- `net.ParseIP` of the host of an address, which gives an IPv4 address in 16 bytes, and `DialContext` of a `net.Dialer` with a `Control`
-- function: `connected` gives the address that the connection was made to.
pub record Dialer : Type 0 where
  pub ip_of : String → List ℕ
  pub dial : (String → Option GoError) → String → Dialed

-- The `Control` function.
pub control : Dialer → (List ℕ → Option ConnectionError) → String → Option GoError
control d validate address = elim (validate (d.ip_of address)) [
  | none ↦ none
  | some e ↦ some (to_error e)
]

unfoldable pub dial_stream : Dialer → (List ℕ → Option ConnectionError) → String → Dialed
unfolding control
dial_stream d validate target = d.dial (control d validate) target

-- What Go documents of `Control`: it is called on an address before the dial, and an error of it
-- ends the dial.
pub record Controlled (d : Dialer) : Type 0 where
  pub asked :
      (check : String → Option GoError) (target address : String)
      → d.dial check target ≡ connected address
      → check address ≡ none

control-none :
    (d : Dialer) (validate : List ℕ → Option ConnectionError) (address : String)
    → control d validate address ≡ none
    → validate (d.ip_of address) ≡ none
unfolding control
control-none d validate address h = elim (Option-cases (validate (d.ip_of address))) [
  | inl ok ↦ ok
  | inr (e, bad) ↦ cc (rw (bad, control) at h)
]

-- The default dialer connects to an IPv4 address, which `net.ParseIP` gives in 16 bytes, only if it is
-- public: for a dialer that calls `Control` as documented, no connection is made to an IPv4 address
-- that the rules on private and special addresses exclude.
pub dial_stream-public :
    (d : Dialer) (text : List ℕ → String) (target address : String) (a b x y : ℕ)
    → Controlled d
    → a < 256
    → b < 256
    → x < 256
    → y < 256
    → d.ip_of address ≡ mapped a b x y
    → dial_stream d (require_public_ip text) target ≡ connected address
    → expected_status4 a b x y ≡ none
unfolding dial_stream
dial_stream-public d text target address a b x y k ha hb hx hy ip h =
    let public : require_public_ip text (d.ip_of address) ≡ none =
      control-none d (require_public_ip text) address (k.asked _ target address h) in
    sym (require_public_ip_v4 text a b x y ha hb hx hy)
    ∙ sym (require_public_ip-mapped text a b x y)
    ∙ ap status_of (ap (require_public_ip text) (sym ip) ∙ public)
