-- ===== src/Salt/Tests.antt =====
-- Runs of the salt generators of service/server_salt.go.
use outline_ss_server.Prelude.{
  ℕ, zero, suc, ◌≡◌, refl, ap, true, some, List, [], ◌∷◌, length, replicate, arith,
}
use outline_ss_server.Salt.{Hashes, Random, marking, ok, get_salt, is_server_salt}
use outline_ss_server.Salt.Marks.{is_server_salt-get_salt}

-- A toy hash: twenty bytes that depend on the length of the message.
abbrev toy : Hashes
toy = record { hmac_sha1 = λ k m. replicate 20 (length m); hkdf_sha1 = λ s i n. replicate n 7 }

toy_sized : (k m : List ℕ) → length (toy.hmac_sha1 k m) ≡ 20
toy_sized k m = refl

abbrev ones : Random
ones n = some (replicate n 1)

length-replicate : (n a : ℕ) → length (replicate n a) ≡ n
length-replicate zero a = refl
length-replicate (suc n) a = ap suc (length-replicate n a)

ones_full : (n : ℕ) (bs : List ℕ) → ones n ≡ some bs → length bs ≡ n
ones_full n bs e = ground (arith, length-replicate n 1)

abbrev blank : List ℕ
blank = replicate 6 0

abbrev marked : List ℕ
marked = 1 ∷ 1 ∷ 2 ∷ 2 ∷ 2 ∷ 2 ∷ []

made : get_salt toy ones (marking []) blank ≡ ok marked
unfolding get_salt
made = refl

is_server_salt-get_salt_example :
    (is_server_salt toy (marking []) marked ≡ true) × (length marked ≡ length blank)
is_server_salt-get_salt_example =
    is_server_salt-get_salt toy toy_sized ones ones_full [] blank marked made
