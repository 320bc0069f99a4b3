-- ===== src/Salt/Marks.antt =====
-- Which salts service/server_salt.go makes, and which it recognises.
use outline_ss_server.Prelude.{
  ◌≢◌, ℕ, ◌-◌, ◌≤◌, ◌<◌, ◌≡◌, refl, sym, ap, ◌∙◌, ◌↔◌, inl, inr, true, none, some, List, ◌++◌, ltb,
  if◌then◌else◌, length, take, drop, arith, Bool-cases, length-append, length-take, length-drop,
  take-append, drop-append, take-append-drop, drop_of_length-le, Option-cases, ltb→lt,
}
use mathlib.Core.List.{append-nil}
use outline_ss_server.Net.Ip.{eq_of_bytes_eq, bytes_eq_self}
use outline_ss_server.Salt.{
  Hashes, Random, random, marking, too_short, rand_failed, ok, err, copy, split_salt, get_tag,
  get_salt, is_server_salt,
}

split_short : (salt : List ℕ) → length salt < 4 → split_salt salt ≡ err (too_short (length salt))
unfolding split_salt
split_short salt h = ground arith

split_long :
    (salt : List ℕ)
    → 4 ≤ length salt
    → split_salt salt ≡ ok (take (length salt - 4) salt, drop (length salt - 4) salt)
unfolding split_salt
split_long salt h = ground arith

length-prefix :
    (salt : List ℕ) → 4 ≤ length salt → length (take (length salt - 4) salt) ≡ length salt - 4
length-prefix salt h = omega (arith, length-take (length salt - 4) salt)

length-mark_part : (salt : List ℕ) → 4 ≤ length salt → length (drop (length salt - 4) salt) ≡ 4
length-mark_part salt h = omega (arith, length-drop (length salt - 4) salt)

split-append : (p m : List ℕ) → length m ≡ 4 → split_salt (p ++ m) ≡ ok (p, m)
split-append p m h =
    let l : length (p ++ m) - 4 ≡ length p = omega (arith, length-append p m) in
    split_long (p ++ m) (omega (arith, length-append p m))
    ∙ (rw l (rw (take-append (length p) p m refl, drop-append (length p) p m refl) refl))

module _ (hashes : Hashes) (sized : (k m : List ℕ) → length (hashes.hmac_sha1 k m) ≡ 20) where
  length-mark : (k p : List ℕ) → length (take 4 (hashes.hmac_sha1 k p)) ≡ 4
  length-mark k p = omega (arith, length-take 4 (hashes.hmac_sha1 k p), sized k p)

  copy-mark :
      (k p mark : List ℕ)
      → length mark ≡ 4
      → copy mark (hashes.hmac_sha1 k p) ≡ take 4 (hashes.hmac_sha1 k p)
  copy-mark k p mark h = rw (h, sized k p, drop_of_length-le 20 mark (omega arith)) (append-nil _)

  get_salt_short :
      (read : Random) (key salt : List ℕ)
      → length salt < 4
      → get_salt hashes read (marking key) salt ≡ err (too_short (length salt))
  unfolding get_salt
  get_salt_short read key salt h = rw (split_short salt h, get_salt) refl

  get_salt_failed :
      (read : Random) (key salt : List ℕ)
      → 4 ≤ length salt
      → read (length salt - 4) ≡ none
      → get_salt hashes read (marking key) salt ≡ err rand_failed
  unfolding get_salt
  get_salt_failed read key salt h e =
      rw (split_long salt h, get_salt) (rw (length-prefix salt h) (rw (e, get_salt) refl))

  get_salt_made :
      (read : Random) (key salt bs : List ℕ)
      → 4 ≤ length salt
      → read (length salt - 4) ≡ some bs
      → get_salt hashes read (marking key) salt ≡ ok (bs ++ take 4 (hashes.hmac_sha1 key bs))
  unfolding get_salt get_tag
  get_salt_made read key salt bs h e =
      rw (split_long salt h, get_salt)
        (rw (length-prefix salt h)
          (rw (e, get_salt) (rw (copy-mark key bs _ (length-mark_part salt h)) refl)))

  -- Every outcome of `GetSalt` with a marking generator: a salt of fewer than 4 bytes is refused,
  -- a failed read of the random source is reported, and otherwise the salt is the random bytes, 4
  -- fewer than asked for, with the first 4 bytes of their tag behind them.
  pub get_salt_marking :
      (read : Random) (key salt : List ℕ)
      → get_salt hashes read (marking key) salt ≡ (
          if ltb (length salt) 4
          then err (too_short (length salt))
          else elim (read (length salt - 4)) [
            | none ↦ err rand_failed
            | some bs ↦ ok (bs ++ take 4 (hashes.hmac_sha1 key bs))
          ])
  get_salt_marking read key salt = elim (Bool-cases (ltb (length salt) 4)) [
    | inl short ↦ rw short (get_salt_short read key salt (ltb→lt _ _ short))
    | inr long ↦
        let l : 4 ≤ length salt = ground arith in
        elim (Option-cases (read (length salt - 4))) [
          | inl failed ↦ rw (long, failed) (get_salt_failed read key salt l failed)
          | inr (bs, r) ↦ rw (long, r) (get_salt_made read key salt bs l r)
        ]
  ]

  -- Exactly the salts that are a prefix with the first 4 bytes of its tag behind it are recognised.
  pub is_server_salt_iff :
      (key salt : List ℕ)
      → (is_server_salt hashes (marking key) salt ≡ true)
        ↔ ((p : List ℕ) × (salt ≡ p ++ take 4 (hashes.hmac_sha1 key p)))
  unfolding is_server_salt get_tag
  is_server_salt_iff key salt = (
    λ h. elim (Bool-cases (ltb (length salt) 4)) [
      | inl short ↦ cc (rw (split_short salt (ltb→lt _ _ short), is_server_salt) at h)
      | inr long ↦
          let l : 4 ≤ length salt = ground arith in
          (
            take (length salt - 4) salt,
            sym (take-append-drop (length salt - 4) salt)
                ∙ ap (◌++◌ (take (length salt - 4) salt))
                    (sym (eq_of_bytes_eq _ _ (rw (split_long salt l, is_server_salt) at h))),
          )
    ],
    λ (p, e).
        rw (e, split-append p _ (length-mark key p), is_server_salt)
          (bytes_eq_self (take 4 (hashes.hmac_sha1 key p))),
  )

  -- A salt that a marking generator made is recognised, and has the length that was asked for.
  pub is_server_salt-get_salt :
      (read : Random)
      → ((n : ℕ) (bs : List ℕ) → read n ≡ some bs → length bs ≡ n)
      → (key salt salt' : List ℕ) → get_salt hashes read (marking key) salt ≡ ok salt'
      → (is_server_salt hashes (marking key) salt' ≡ true) × (length salt' ≡ length salt)
  is_server_salt-get_salt read full key salt salt' e = elim (Bool-cases (ltb (length salt) 4)) [
    | inl short ↦ cc (e, get_salt_short read key salt (ltb→lt _ _ short))
    | inr long ↦
        let l : 4 ≤ length salt = ground arith in
        elim (Option-cases (read (length salt - 4))) [
          | inl failed ↦ cc (e, get_salt_failed read key salt l failed)
          | inr (bs, r) ↦
              let made : salt' ≡ bs ++ take 4 (hashes.hmac_sha1 key bs) =
                cc (e, get_salt_made read key salt bs l r) in
              (
                (is_server_salt_iff key salt').1 (bs, made),
                omega (
                  arith,
                  ap length made,
                  length-append bs (take 4 (hashes.hmac_sha1 key bs)),
                  length-mark key bs,
                  full (length salt - 4) bs r,
                ),
              )
        ]
  ]

  -- A salt of at least 4 bytes is not refused as too short.
  pub get_salt_long :
      (read : Random) (key salt : List ℕ) (n : ℕ)
      → 4 ≤ length salt
      → get_salt hashes read (marking key) salt ≢ err (too_short n)
  get_salt_long read key salt n l e = elim (Option-cases (read (length salt - 4))) [
    | inl failed ↦ cc (e, get_salt_failed read key salt l failed)
    | inr (bs, r) ↦ cc (e, get_salt_made read key salt bs l r)
  ]

pub get_salt_random :
    (hashes : Hashes) (read : Random) (salt : List ℕ) (n : ℕ)
    → get_salt hashes read random salt ≢ err (too_short n)
unfolding get_salt
get_salt_random hashes read salt n e = ground arith
