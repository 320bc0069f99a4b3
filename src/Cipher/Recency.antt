-- ===== src/Cipher/Recency.antt =====
-- What `MarkUsedByClientIP` and `MakeCipherEntry` of service/cipher_list.go promise.
use mathlib.Core.List.{Perm}
use mathlib.Core.List.Perm
use outline_ss_server.Prelude.{
  ℕ, leb, ◌-◌, ◌≡◌, refl, ap, ◌≢◌, inl, inr, true, false, not, Option, some, List, [], ◌∷◌, ◌==◌,
  if◌then◌else◌, arith, length, Bool-cases, ==_self,
}
use outline_ss_server.Net.Ip.{bytes_eq_self}
use outline_ss_server.Salt.{
  too_short, Hashes, Random, random, err, get_salt, new_server_salt_generator,
}
use outline_ss_server.Salt.Marks.{get_salt_long, get_salt_random}
use outline_ss_server.Cipher.{
  Addr, no_addr, v4, v6, addr_eq, Shadowsocks, CipherList, make_cipher_entry, matches_ip,
  snapshot_for_client_ip, contains, remove, mark_used_by_client_ip,
}
use outline_ss_server.Cipher.Snapshot.{select, snapshot-eq-select}

addr_eq_self : (a : Addr) → addr_eq a a ≡ true
unfolding addr_eq
addr_eq_self no_addr = refl
addr_eq_self (v4 a) = bytes_eq_self a
addr_eq_self (v6 a z) = rw (bytes_eq_self a, bytes_eq_self z) refl

remove-perm : (l : List ℕ) (e : ℕ) → contains l e ≡ true → Perm (e ∷ remove l e) l
unfolding contains remove
remove-perm [] e h = cc
remove-perm (x ∷ l) e h = elim (Bool-cases (x == e)) [
  | inl same ↦ rw same (Perm.cons' (ground arith) Perm.rfl)
  | inr other ↦
      rw other (Perm.trans (Perm.swap x e _) (Perm.cons x (remove-perm l e (rw other at h))))
]

abbrev others : ℕ → List ℕ → List ℕ
others e = select (λ x. not (x == e))

others-remove : (l : List ℕ) (e : ℕ) → others e (remove l e) ≡ others e l
unfolding remove
others-remove [] e = refl
others-remove (x ∷ l) e = elim (Bool-cases (x == e)) [
  | inl same ↦ rw same refl
  | inr other ↦ rw (other, other) (ap (◌∷◌ x) (others-remove l e))
]

module _ {Key : Type 0} (cl : CipherList Key) (e : ℕ) (ip : Addr) where
  -- Marking an element, of this list or of another, keeps the elements of the list, each as often
  -- as before, and the order of all elements but the marked one.
  pub mark_used-order :
      Perm (mark_used_by_client_ip cl e ip).list cl.list
      × (select (λ x. not (x == e)) (mark_used_by_client_ip cl e ip).list
          ≡ select (λ x. not (x == e)) cl.list)
  unfolding mark_used_by_client_ip
  mark_used-order = elim (Bool-cases (contains cl.list e)) [
    | inl here ↦ rw here (remove-perm cl.list e here, rw (==_self e) (others-remove cl.list e))
    | inr absent ↦ rw absent (Perm.rfl, refl)
  ]

  -- Marking changes no entry but for the last client IP of the marked one.
  pub mark_used-store :
      (x : ℕ)
      → (((mark_used_by_client_ip cl e ip).store x).id ≡ (cl.store x).id)
        × (((mark_used_by_client_ip cl e ip).store x).crypto_key ≡ (cl.store x).crypto_key)
        × (((mark_used_by_client_ip cl e ip).store x).salt_generator ≡ (cl.store x).salt_generator)
        × (((mark_used_by_client_ip cl e ip).store x).last_client_ip
            ≡ (if x == e then ip else (cl.store x).last_client_ip))
  unfolding mark_used_by_client_ip
  mark_used-store x = ground arith

  mark_used-matches :
      addr_eq ip no_addr ≡ false → matches_ip (mark_used_by_client_ip cl e ip) e ip ≡ true
  unfolding matches_ip mark_used_by_client_ip
  mark_used-matches h = rw (h, ==_self e) (addr_eq_self ip)

  mark_used-list :
      contains cl.list e ≡ true → (mark_used_by_client_ip cl e ip).list ≡ e ∷ remove cl.list e
  unfolding mark_used_by_client_ip
  mark_used-list h = rw h refl

  -- After an element of the list is marked for a client IP, the next snapshot for that IP, if it
  -- is not the zero address, begins with it.
  pub snapshot-mark_used :
      contains cl.list e ≡ true
      → addr_eq ip no_addr ≡ false
      → (rest : List (Option ℕ)) × (snapshot_for_client_ip (mark_used_by_client_ip cl e ip) ip
          ≡ some e ∷ rest)
  unfolding matches_ip
  snapshot-mark_used h a =
      rw
        (
          snapshot-eq-select (mark_used_by_client_ip cl e ip) ip,
          mark_used-list h,
          mark_used-matches a,
        )
        (_, refl)

module _ (hashes : Hashes) (sized : (k m : List ℕ) → length (hashes.hmac_sha1 k m) ≡ 20) where
  -- A key gets a marking generator exactly when its salts have at least 20 bytes, so that 16 of
  -- them stay random; and the generator of an entry never finds a salt of its key too short.
  pub make_cipher_entry_salts :
      {Key : Type 0} (ss : Shadowsocks Key) (id : List ℕ) (key : Key) (secret : List ℕ)
      → (read : Random) (salt : List ℕ) → length salt ≡ ss.salt_size key
      → ((make_cipher_entry hashes ss id key secret).salt_generator
          ≡ (if leb 20 (ss.salt_size key) then new_server_salt_generator hashes secret else random))
        × ((n : ℕ)
            → get_salt hashes read (make_cipher_entry hashes ss id key secret).salt_generator salt
              ≢ err (too_short n))
  unfolding make_cipher_entry new_server_salt_generator
  make_cipher_entry_salts ss id key secret read salt l = (
    ground arith,
    elim (Bool-cases (leb 16 (ss.salt_size key - 4))) [
      | inl marks ↦ rw marks (λ n e. get_salt_long hashes sized read _ salt n (ground arith) e)
      | inr plain ↦ rw plain (λ n e. get_salt_random hashes read salt n e)
    ],
  )
