-- ===== src/Tunnel/Entries.antt =====
-- The map of the active clients of cmd/outline-ss-server/metrics.go: its keys, each with one entry.
use outline_ss_server.Prelude.{
  ℕ, ◌≡◌, refl, ap, sym, ◌∙◌, inl, inr, true, false, Option, none, some, List, [], ◌∷◌,
  if◌then◌else◌, map, arith, Bool-cases,
}
use outline_ss_server.Net.Ip.{eq_of_bytes_eq, bytes_eq_self}
use outline_ss_server.Cipher.{Addr, no_addr, v4, v6, addr_eq}
use outline_ss_server.Tunnel.{IpKey, ip_key_eq, ActiveClient, find, replace, delete, reset}

addr_of_eq : (a b : Addr) → addr_eq a b ≡ true → a ≡ b
unfolding addr_eq
addr_of_eq no_addr no_addr h = refl
addr_of_eq no_addr (v4 b) h = cc
addr_of_eq no_addr (v6 b y) h = cc
addr_of_eq (v4 a) no_addr h = cc
addr_of_eq (v4 a) (v4 b) h = ap v4 (eq_of_bytes_eq a b h)
addr_of_eq (v4 a) (v6 b y) h = cc
addr_of_eq (v6 a z) no_addr h = cc
addr_of_eq (v6 a z) (v4 b) h = cc
addr_of_eq (v6 a z) (v6 b y) h =
    λ i. v6 (eq_of_bytes_eq a b (ground arith) i) (eq_of_bytes_eq z y (ground arith) i)

addr_eq_self : (a : Addr) → addr_eq a a ≡ true
unfolding addr_eq
addr_eq_self no_addr = refl
addr_eq_self (v4 a) = bytes_eq_self a
addr_eq_self (v6 a z) = rw (bytes_eq_self a) (bytes_eq_self z)

pub key_of_eq : (a b : IpKey) → ip_key_eq a b ≡ true → a ≡ b
unfolding ip_key_eq
key_of_eq a b h = λ i. record {
  ip = addr_of_eq a.ip b.ip (ground arith) i;
  access_key = eq_of_bytes_eq a.access_key b.access_key (ground arith) i;
}

key_eq_self : (a : IpKey) → ip_key_eq a a ≡ true
unfolding ip_key_eq
key_eq_self a = rw (addr_eq_self a.ip) (bytes_eq_self a.access_key)

-- Two keys that differ from a third and from each other do not become equal.
apart : (x k key : IpKey) → ip_key_eq x k ≡ false → ip_key_eq x key ≡ true → ip_key_eq k key ≡ false
apart x k key n e = elim (Bool-cases (ip_key_eq k key)) [
  | inl same ↦
      let xk : x ≡ k = key_of_eq x key e ∙ sym (key_of_eq k key same) in
      cc (key_eq_self k, rw xk at n)
  | inr other ↦ other
]

abbrev pub replaced : Option ActiveClient → ActiveClient → Option ActiveClient
replaced none new = none
replaced (some cl) new = some new

pub find-replace :
    (k key : IpKey) (new : ActiveClient) (es : List (IpKey × ActiveClient))
    → find key (replace k new es)
      ≡ (if ip_key_eq k key then replaced (find key es) new else find key es)
unfolding find replace
find-replace k key new [] = ground arith
find-replace k key new ((x, c) ∷ es) = elim (Bool-cases (ip_key_eq x k)) [
  | inl here ↦
      rw (here, key_of_eq x k here)
        (elim (Bool-cases (ip_key_eq k key)) [ inl e ↦ rw e refl | inr n ↦ rw n refl ])
  | inr there ↦ elim (Bool-cases (ip_key_eq x key)) [
    | inl e ↦ rw (there, e, apart x k key there e) refl
    | inr n ↦ rw (there, n) (find-replace k key new es)
  ]
]

unfoldable pub Unique : List (IpKey × ActiveClient) → Type 0
Unique [] = Unit
Unique ((k, cl) ∷ es) = (find k es ≡ none) × Unique es

pub find-delete :
    (k key : IpKey) (es : List (IpKey × ActiveClient))
    → Unique es
    → find key (delete k es) ≡ (if ip_key_eq k key then none else find key es)
unfolding find delete Unique
find-delete k key [] u = ground arith
find-delete k key ((x, c) ∷ es) (a, u) = elim (Bool-cases (ip_key_eq x k)) [
  | inl here ↦ elim (Bool-cases (ip_key_eq k key)) [
    | inl e ↦
        let xkey : x ≡ key = key_of_eq x k here ∙ key_of_eq k key e in rw (here, e) (rw xkey at a)
    | inr n ↦ rw (here, n, key_of_eq x k here) (rw n refl)
  ]
  | inr there ↦ elim (Bool-cases (ip_key_eq x key)) [
    | inl e ↦ rw (there, e, apart x k key there e) refl
    | inr n ↦ rw (there, n) (find-delete k key es u)
  ]
]

pub find-reset :
    (key : IpKey) (t : ℕ) (es : List (IpKey × ActiveClient))
    → find key (map (reset t) es)
      ≡ (elim (find key es) [ none ↦ none | some cl ↦ some (record cl { start_time = t }) ])
unfolding find reset
find-reset key t [] = refl
find-reset key t ((x, c) ∷ es) = elim (Bool-cases (ip_key_eq x key)) [
  | inl e ↦ rw e refl
  | inr n ↦ rw n (find-reset key t es)
]

pub Unique-replace :
    (k : IpKey) (new : ActiveClient) (es : List (IpKey × ActiveClient))
    → Unique es
    → Unique (replace k new es)
unfolding replace Unique
Unique-replace k new [] u = tt
Unique-replace k new ((x, c) ∷ es) (a, u) = elim (Bool-cases (ip_key_eq x k)) [
  | inl here ↦ rw here (a, u)
  | inr there ↦ rw there (
    find-replace k x new es
        ∙ (rw a (elim (Bool-cases (ip_key_eq k x)) [ inl e ↦ rw e refl | inr n ↦ rw n refl ])),
    Unique-replace k new es u,
  )
]

pub Unique-delete :
    (k : IpKey) (es : List (IpKey × ActiveClient)) → Unique es → Unique (delete k es)
unfolding delete Unique
Unique-delete k [] u = tt
Unique-delete k ((x, c) ∷ es) (a, u) = elim (Bool-cases (ip_key_eq x k)) [
  | inl here ↦ rw here u
  | inr there ↦ rw there (
    find-delete k x es u
        ∙ (rw a (elim (Bool-cases (ip_key_eq k x)) [ inl e ↦ rw e refl | inr n ↦ rw n refl ])),
    Unique-delete k es u,
  )
]

pub Unique-reset :
    (t : ℕ) (es : List (IpKey × ActiveClient)) → Unique es → Unique (map (reset t) es)
unfolding reset Unique
Unique-reset t [] u = tt
Unique-reset t ((x, c) ∷ es) (a, u) = (find-reset x t es ∙ (rw a refl), Unique-reset t es u)
