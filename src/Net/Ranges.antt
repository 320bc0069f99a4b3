-- ===== src/Net/Ranges.antt =====
-- The networks of net/private_net.go as intervals of bytes.
use outline_ss_server.Prelude.{
  ◌||◌, leb, if◌then◌else◌, ◌&&◌, ℕ, zero, suc, ◌*◌, ◌/◌, ◌≤◌, ◌<◌, ◌≡◌, refl, ◌↔◌, ◌⊎◌, inl, inr,
  String, Bool, true, false, Option, none, some, List, [], ◌∷◌, bit_and, arith, ◌==◌, Bool-cases,
  length, replicate, All,
}
use outline_ss_server.Net.Ip.{
  to4, is_global_unicast, contains, contains-unmapped, contains_bytes, masked_eq, IpNet,
}
use outline_ss_server.Net.GoError.{ConnectionError}
use outline_ss_server.Net.Private.{is_private_address, require_public_ip}

-- A test of every byte, from the largest down.
each_from : (ℕ → Bool) → ℕ → Bool
each_from test zero = true
each_from test (suc m) = if test m then each_from test m else false

each_from-at : (test : ℕ → Bool) (m : ℕ) → each_from test m ≡ true → (y : ℕ) → y < m → test y ≡ true
unfolding each_from
each_from-at test zero all_pass y below = absurd (omega arith)
each_from-at test (suc m) all_pass y below =
    ground (arith, λ (rest : each_from test m ≡ true). each_from-at test m rest y)

-- A byte under a mask whose low k bits are 0 keeps its upper part.
mask_table :
    each_from
      (λ x.
        bit_and x 255 == x
        && bit_and x 0 == 0
        && bit_and x 240 == x / 16 * 16
        && bit_and x 192 == x / 64 * 64
        && bit_and x 254 == x / 2 * 2)
      256
    ≡ true
unfolding each_from
mask_table = refl

pub mask_bytes :
    (x : ℕ)
    → x < 256
    → (bit_and x 255 ≡ x)
      × (bit_and x 0 ≡ 0)
      × (bit_and x 240 ≡ x / 16 * 16)
      × (bit_and x 192 ≡ x / 64 * 64)
      × (bit_and x 254 ≡ x / 2 * 2)
mask_bytes x h = ground (arith, each_from-at _ 256 mask_table x h)

abbrev pub IsPrivate4 : ℕ → ℕ → Type 0
IsPrivate4 a b =
    (a ≡ 10)
    ⊎ ((a ≡ 172) × (16 ≤ b) × (b ≤ 31))
    ⊎ ((a ≡ 192) × (b ≡ 168))
    ⊎ ((a ≡ 100) × (64 ≤ b) × (b ≤ 127))

-- An IPv4 address a.b.c.d is private exactly when it lies in 10.0.0.0/8, 172.16.0.0/12,
-- 192.168.0.0/16 or 100.64.0.0/10, written as intervals of its first two bytes.
pub is_private_address_v4 :
    (a b c d : ℕ)
    → a < 256
    → b < 256
    → c < 256
    → d < 256
    → (is_private_address (a ∷ b ∷ c ∷ d ∷ []) ≡ true) ↔ IsPrivate4 a b
unfolding is_private_address contains
is_private_address_v4 a b c d ha hb hc hd =
    ground (arith, mask_bytes a ha, mask_bytes b hb, mask_bytes c hc, mask_bytes d hd)

-- Loopback, multicast, link-local, unspecified and broadcast addresses.
abbrev pub IsSpecial4 : ℕ → ℕ → ℕ → ℕ → Type 0
IsSpecial4 a b c d =
    (a ≡ 127)
    ⊎ ((224 ≤ a) × (a ≤ 239))
    ⊎ ((a ≡ 169) × (b ≡ 254))
    ⊎ ((a ≡ 0) × (b ≡ 0) × (c ≡ 0) × (d ≡ 0))
    ⊎ ((a ≡ 255) × (b ≡ 255) × (c ≡ 255) × (d ≡ 255))

pub is_global_unicast_v4 :
    (a b c d : ℕ) → a < 256 → (is_global_unicast (a ∷ b ∷ c ∷ d ∷ []) ≡ false) ↔ IsSpecial4 a b c d
unfolding is_global_unicast
is_global_unicast_v4 a b c d ha = ground (arith, mask_bytes a ha)

abbrev pub status_of : Option ConnectionError → Option String
status_of none = none
status_of (some e) = some e.status

-- The answer for an IPv4 address by intervals of its bytes.
abbrev pub expected_status4 : ℕ → ℕ → ℕ → ℕ → Option String
expected_status4 a b c d =
    if a == 127
      || (leb 224 a && leb a 239)
      || (a == 169 && b == 254)
      || (a == 0 && b == 0 && c == 0 && d == 0)
      || (a == 255 && b == 255 && c == 255 && d == 255)
    then some "ERR_ADDRESS_INVALID"
    else (if a == 10
          || (a == 172 && leb 16 b && leb b 31)
          || (a == 192 && b == 168)
          || (a == 100 && leb 64 b && leb b 127)
        then some "ERR_ADDRESS_PRIVATE"
        else none)

-- What the validator answers on an IPv4 address a.b.c.d, on all branches: a loopback, multicast,
-- link-local, unspecified or broadcast address is invalid, another one in a private network is
-- private, and all else is allowed.
pub require_public_ip_v4 :
    (s : List ℕ → String) (a b c d : ℕ)
    → a < 256
    → b < 256
    → c < 256
    → d < 256
    → status_of (require_public_ip s (a ∷ b ∷ c ∷ d ∷ [])) ≡ expected_status4 a b c d
unfolding require_public_ip
require_public_ip_v4 s a b c d ha hb hc hd =
    ground (arith, is_global_unicast_v4 a b c d ha, is_private_address_v4 a b c d ha hb hc hd)

abbrev pub mapped : ℕ → ℕ → ℕ → ℕ → List ℕ
mapped a b c d = 0 ∷ 0 ∷ 0 ∷ 0 ∷ 0 ∷ 0 ∷ 0 ∷ 0 ∷ 0 ∷ 0 ∷ 255 ∷ 255 ∷ a ∷ b ∷ c ∷ d ∷ []

is_global_unicast-mapped :
    (a b c d : ℕ) → is_global_unicast (mapped a b c d) ≡ is_global_unicast (a ∷ b ∷ c ∷ d ∷ [])
unfolding is_global_unicast
is_global_unicast-mapped a b c d = refl

is_private_address-mapped :
    (a b c d : ℕ) → is_private_address (mapped a b c d) ≡ is_private_address (a ∷ b ∷ c ∷ d ∷ [])
unfolding is_private_address
is_private_address-mapped a b c d = refl

-- An IPv4-mapped IPv6 address gets the answer of its IPv4 address: the mapping is no way round.
pub require_public_ip-mapped :
    (s : List ℕ → String) (a b c d : ℕ)
    → status_of (require_public_ip s (mapped a b c d))
      ≡ status_of (require_public_ip s (a ∷ b ∷ c ∷ d ∷ []))
unfolding require_public_ip
require_public_ip-mapped s a b c d =
    ground (arith, is_global_unicast-mapped a b c d, is_private_address-mapped a b c d)

masked_eq_zeros :
    (n : ℕ) (xs : List ℕ)
    → All (λ x. x < 256) xs
    → masked_eq (replicate n 0) (replicate n 0) xs ≡ true
unfolding masked_eq
masked_eq_zeros zero xs h = refl
masked_eq_zeros (suc n) [] h = refl
masked_eq_zeros (suc n) (x ∷ xs) h = rw (mask_bytes x h.0).1 (masked_eq_zeros n xs h.1)

is_private_address_first :
    (b : ℕ) (rest : List ℕ)
    → length rest ≡ 15
    → All (λ x. x < 256) (b ∷ rest)
    → to4 (b ∷ rest) ≡ none
    → is_private_address (b ∷ rest) ≡ (bit_and 252 254 == bit_and b 254)
unfolding is_private_address contains_bytes
is_private_address_first b rest l h e =
    simp (λ (n : IpNet). contains-unmapped n (b ∷ rest) e)
      (rw (l, masked_eq_zeros 15 rest h.1)
        (elim (Bool-cases (bit_and 252 254 == bit_and b 254)) [
          | inl e ↦ rw e refl
          | inr e ↦ rw e refl
        ]))

-- An IPv6 address that is not IPv4-mapped is private exactly when it lies in fc00::/7, that is, when
-- its first byte is 252 or 253.
pub is_private_address_v6 :
    (b : ℕ) (rest : List ℕ)
    → length rest ≡ 15
    → All (λ x. x < 256) (b ∷ rest)
    → to4 (b ∷ rest) ≡ none
    → (is_private_address (b ∷ rest) ≡ true) ↔ ((252 ≤ b) × (b ≤ 253))
is_private_address_v6 b rest l h e =
    rw (is_private_address_first b rest l h e) (ground (arith, mask_bytes b h.0))
