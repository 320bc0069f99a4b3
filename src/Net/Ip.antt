-- ===== src/Net/Ip.antt =====
-- What the program uses of Go's package net on addresses: `net.IP` is its bytes.
use outline_ss_server.Prelude.{
  ℕ, ◌≡◌, refl, Bool, true, false, not, ◌&&◌, Option, none, some, List, [], ◌∷◌, bit_and, arith,
  ◌==◌, if◌then◌else◌, length, get_or,
}

unfoldable pub bytes_eq : List ℕ → List ℕ → Bool
bytes_eq [] [] = true
bytes_eq [] (y ∷ ys) = false
bytes_eq (x ∷ xs) [] = false
bytes_eq (x ∷ xs) (y ∷ ys) = if x == y then bytes_eq xs ys else false

pub eq_of_bytes_eq : (xs ys : List ℕ) → bytes_eq xs ys ≡ true → xs ≡ ys
unfolding bytes_eq
eq_of_bytes_eq [] [] h = refl
eq_of_bytes_eq [] (y ∷ ys) h = cc
eq_of_bytes_eq (x ∷ xs) [] h = cc
eq_of_bytes_eq (x ∷ xs) (y ∷ ys) h = ground (arith, eq_of_bytes_eq xs ys)

pub bytes_eq_self : (xs : List ℕ) → bytes_eq xs xs ≡ true
unfolding bytes_eq
bytes_eq_self [] = refl
bytes_eq_self (x ∷ xs) = ground (arith, bytes_eq_self xs)

-- `To4`: four bytes, or an IPv4-mapped IPv6 address.
unfoldable pub to4 : List ℕ → Option (List ℕ)
unfolding bytes_eq
to4 (a ∷ b ∷ c ∷ d ∷ []) = some (a ∷ b ∷ c ∷ d ∷ [])
to4 (a0 ∷ a1 ∷ a2 ∷ a3 ∷ a4 ∷ a5 ∷ a6 ∷ a7 ∷ a8 ∷ a9 ∷ f0 ∷ f1 ∷ a ∷ b ∷ c ∷ d ∷ []) =
    if bytes_eq (a0 ∷ a1 ∷ a2 ∷ a3 ∷ a4 ∷ a5 ∷ a6 ∷ a7 ∷ a8 ∷ a9 ∷ f0 ∷ f1 ∷ [])
      (0 ∷ 0 ∷ 0 ∷ 0 ∷ 0 ∷ 0 ∷ 0 ∷ 0 ∷ 0 ∷ 0 ∷ 255 ∷ 255 ∷ [])
    then some (a ∷ b ∷ c ∷ d ∷ [])
    else none
to4 _ = none

abbrev pub unspecified6 : List ℕ
unspecified6 = 0 ∷ 0 ∷ 0 ∷ 0 ∷ 0 ∷ 0 ∷ 0 ∷ 0 ∷ 0 ∷ 0 ∷ 0 ∷ 0 ∷ 0 ∷ 0 ∷ 0 ∷ 0 ∷ []

abbrev pub loopback6 : List ℕ
loopback6 = 0 ∷ 0 ∷ 0 ∷ 0 ∷ 0 ∷ 0 ∷ 0 ∷ 0 ∷ 0 ∷ 0 ∷ 0 ∷ 0 ∷ 0 ∷ 0 ∷ 0 ∷ 1 ∷ []

-- The tests of `IsGlobalUnicast` on the bytes of an IPv4 address: broadcast, unspecified,
-- loopback, multicast, link-local.
pub is_global_unicast4 : List ℕ → Bool
unfolding bytes_eq
is_global_unicast4 ip =
    not (bytes_eq ip (255 ∷ 255 ∷ 255 ∷ 255 ∷ []))
    && not (bytes_eq ip (0 ∷ 0 ∷ 0 ∷ 0 ∷ []))
    && not (get_or ip 0 0 == 127)
    && not (bit_and (get_or ip 0 0) 0xf0 == 0xe0)
    && not (get_or ip 0 0 == 169 && get_or ip 1 0 == 254)

-- The same on the sixteen bytes of an address that is not IPv4-mapped.
pub is_global_unicast6 : List ℕ → Bool
unfolding bytes_eq
is_global_unicast6 ip =
    not (bytes_eq ip unspecified6)
    && not (bytes_eq ip loopback6)
    && not (get_or ip 0 0 == 0xff)
    && not (get_or ip 0 0 == 0xfe && bit_and (get_or ip 1 0) 0xc0 == 0x80)

-- `IsGlobalUnicast`: false on a slice that is no address.
unfoldable pub is_global_unicast : List ℕ → Bool
unfolding to4 is_global_unicast4 is_global_unicast6
is_global_unicast ip = elim (to4 ip) [
  | some ip4 ↦ is_global_unicast4 ip4
  | none ↦ if length ip == 16 then is_global_unicast6 ip else false
]

-- `*net.IPNet`
pub record IpNet : Type 0 where
  pub ip : List ℕ
  pub mask : List ℕ

unfoldable pub masked_eq : List ℕ → List ℕ → List ℕ → Bool
masked_eq (n ∷ ns) (m ∷ ms) (x ∷ xs) =
    if bit_and n m == bit_and x m then masked_eq ns ms xs else false
masked_eq _ _ _ = true

-- `Contains`, on the bytes that `To4` has shortened.
unfoldable pub contains_bytes : IpNet → List ℕ → Bool
unfolding masked_eq
contains_bytes net ip = if length ip == length net.ip then masked_eq net.ip net.mask ip else false

unfoldable pub contains : IpNet → List ℕ → Bool
unfolding to4 contains_bytes
contains net ip = elim (to4 ip) [ some ip4 ↦ contains_bytes net ip4 | none ↦ contains_bytes net ip ]

pub contains-unmapped :
    (net : IpNet) (ip : List ℕ) → to4 ip ≡ none → contains net ip ≡ contains_bytes net ip
unfolding contains
contains-unmapped net ip e = rw (e, contains)
