-- ===== src/Salt.antt =====
-- service/server_salt.go: salts that the server marks as its own. The hash functions of the
-- standard library and the random source are parameters.
pub mod Marks
mod Tests
use outline_ss_server.Prelude.{
  ℕ, ◌+◌, ◌-◌, ◌<◌, ◌≡◌, Bool, true, false, Option, none, some, List, [], ◌∷◌, ◌++◌, ltb,
  if◌then◌else◌, length, take, drop,
}
use outline_ss_server.Net.Ip.{bytes_eq}

-- `hmac` with SHA-1 on a key and a message, and `hkdf.New` with SHA-1 on a secret and an info,
-- read to a number of bytes.
pub record Hashes : Type 0 where
  pub hmac_sha1 : List ℕ → List ℕ → List ℕ
  pub hkdf_sha1 : List ℕ → List ℕ → ℕ → List ℕ

-- What `rand.Read` does to a slice of a length: the bytes that fill it, or an error.
abbrev pub Random : Type 0
Random = ℕ → Option (List ℕ)

pub data ServerSaltGenerator : Type 0 where
  random : ServerSaltGenerator
  marking : List ℕ → ServerSaltGenerator

abbrev pub server_salt_mark_len : ℕ
server_salt_mark_len = 4

-- "outline-server-salt"
abbrev pub server_salt_label : List ℕ
server_salt_label =
    111 ∷ 117 ∷ 116 ∷ 108 ∷ 105 ∷ 110 ∷ 101 ∷ 45 ∷ 115 ∷ 101 ∷ 114 ∷ 118 ∷ 101 ∷ 114 ∷ 45 ∷ 115 ∷ 97
    ∷ 108 ∷ 116 ∷ []

abbrev pub sha1_size : ℕ
sha1_size = 20

pub data SaltError : Type 0 where
  too_short : ℕ → SaltError
  rand_failed : SaltError

pub data Result {ℓ} (A : Type ℓ) : Type ℓ where
  ok : A → Result A
  err : SaltError → Result A

-- Go's `copy(dst, src)`.
abbrev pub copy : List ℕ → List ℕ → List ℕ
copy dst src = take (length dst) src ++ drop (length src) dst

pub split_salt : List ℕ → Result (List ℕ × List ℕ)
split_salt salt =
    if ltb (length salt) server_salt_mark_len
    then err (too_short (length salt))
    else (let prefix_len = length salt - server_salt_mark_len in
        ok (take prefix_len salt, drop prefix_len salt))

module _ (hashes : Hashes) where
  unfoldable pub new_server_salt_generator : List ℕ → ServerSaltGenerator
  new_server_salt_generator secret = marking (hashes.hkdf_sha1 secret server_salt_label sha1_size)

  pub get_tag : List ℕ → List ℕ → List ℕ
  get_tag key prefix = hashes.hmac_sha1 key prefix

  -- The slice that the caller passes, after the call.
  pub get_salt : Random → ServerSaltGenerator → List ℕ → Result (List ℕ)
  unfolding split_salt get_tag
  get_salt read random salt = elim (read (length salt)) [ none ↦ err rand_failed | some bs ↦ ok bs ]
  get_salt read (marking key) salt = elim (split_salt salt) [
    | err e ↦ err e
    | ok (prefix, mark) ↦ elim (read (length prefix)) [
      | none ↦ err rand_failed
      | some bs ↦ ok (bs ++ copy mark (get_tag key bs))
    ]
  ]

  unfoldable pub is_server_salt : ServerSaltGenerator → List ℕ → Bool
  unfolding split_salt get_tag bytes_eq
  is_server_salt random salt = false
  is_server_salt (marking key) salt = elim (split_salt salt) [
    | err e ↦ false
    | ok (prefix, mark) ↦ bytes_eq (take server_salt_mark_len (get_tag key prefix)) mark
  ]
