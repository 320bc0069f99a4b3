-- ===== src/Cipher/Tests.antt =====
-- Runs of the cipher list of service/cipher_list.go.

use outline_ss_server.Prelude.{
  ℕ, ◌≡◌, refl, Option, none, some, List, [], ◌∷◌, ◌==◌, if◌then◌else◌, length, replicate,
}
use outline_ss_server.Salt.{Hashes, Random, random}
use outline_ss_server.Cipher.{
  Addr, no_addr, v4, addr_eq, Shadowsocks, CipherEntry, CipherList, matches_ip, contains,
  snapshot_for_client_ip, mark_used_by_client_ip, update, fill,
}
use outline_ss_server.Cipher.Recency.{snapshot-mark_used}

abbrev alice : Addr
alice = v4 (203 ∷ 0 ∷ 113 ∷ 5 ∷ [])

abbrev entry : ℕ → Addr → CipherEntry ℕ
entry n ip = record { id = n ∷ []; crypto_key = n; salt_generator = random; last_client_ip = ip }

-- Element 3 was last used by `alice`.
abbrev three : CipherList ℕ
three = record {
  store = λ n. if n == 3 then entry 3 alice else entry n no_addr;
  list = 1 ∷ 2 ∷ 3 ∷ [];
}

snapshot_test : snapshot_for_client_ip three alice ≡ some 3 ∷ some 1 ∷ some 2 ∷ []
unfolding snapshot_for_client_ip fill matches_ip
snapshot_test = refl

mark_test : (mark_used_by_client_ip three 2 alice).list ≡ 2 ∷ 1 ∷ 3 ∷ []
unfolding mark_used_by_client_ip
mark_test = refl

-- After an update a snapshot's old element is marked, and the new list stays as it is.
update_test : (mark_used_by_client_ip (update three (7 ∷ 8 ∷ [])) 2 alice).list ≡ 7 ∷ 8 ∷ []
unfolding mark_used_by_client_ip update
update_test = refl

snapshot-mark_used_example :
    (rest : List (Option ℕ)) × (snapshot_for_client_ip (mark_used_by_client_ip three 2 alice) alice
      ≡ some 2 ∷ rest)
unfolding contains addr_eq
snapshot-mark_used_example = snapshot-mark_used three 2 alice refl refl

abbrev toy : Hashes
toy = record { hmac_sha1 = λ k m. replicate 20 (length m); hkdf_sha1 = λ s i n. replicate n 7 }

toy_sized : (k m : List ℕ) → length (toy.hmac_sha1 k m) ≡ 20
toy_sized k m = refl

abbrev toy_ss : Shadowsocks ℕ
toy_ss = record { salt_size = λ k. k; tag_size = λ k. 16; unpack = λ bs k. none }

abbrev ones : Random
ones n = some (replicate n 1)
