-- ===== src/Server/Changes.antt =====
-- What the maps of `loadConfig` in cmd/outline-ss-server/main.go hold: the change of each port, and
-- its ciphers.
use outline_ss_server.Prelude.{
  ℕ, ◌≡◌, ◌⊎◌, refl, sym, ◌∙◌, inl, inr, Bool, true, false, ◌||◌, List, [], ◌∷◌, ◌++◌, ℤ, pos, pred,
  ◌==◌, ==_iff, if◌then◌else◌, Bool-cases, arith,
}
use outline_ss_server.Prelude.Maps.{nat_eq, put, keys, elem, Once, get-put, elem-put}
use outline_ss_server.Cipher.{CipherEntry, make_cipher_entry}
use outline_ss_server.Server.{KeyConfig, Env, count_of, ciphers_of, read_keys, retire}
use mathlib.Core.List.{append-nil, append_assoc}

-- Whether a configuration has a key for a port.
unfoldable pub has_key : ℕ → List KeyConfig → Bool
has_key p [] = false
has_key p (k ∷ ks) = if k.port == p then true else has_key p ks

pub key_cases : {A B : Type 0} (r : A ⊎ B) → ((a : A) × (r ≡ inl a)) ⊎ ((b : B) × (r ≡ inr b))
key_cases (inl a) = inl (a, refl)
key_cases (inr b) = inr (b, refl)

count_of-put :
    (p q : ℕ) (n : ℤ) (m : List (ℕ × ℤ))
    → count_of p (put q n m) ≡ (if q == p then n else count_of p m)
unfolding count_of
count_of-put p q n m = elim (Bool-cases (q == p)) [
  | inl h ↦ rw (get-put p q n m, count_of, h) refl
  | inr h ↦ rw (get-put p q n m, count_of, h) refl
]

pub retire_lem :
    (p : ℕ) (ps : List ℕ) (m : List (ℕ × ℤ))
    → Once ps
    → (count_of p (retire ps m) ≡ (if elem p ps then pred (count_of p m) else count_of p m))
      × (elem p (keys (retire ps m)) ≡ (elem p ps || elem p (keys m)))
unfolding retire Once elem
retire_lem p [] m u = (refl, refl)
retire_lem p (x ∷ xs) m (a, u) =
    let (c, e) = retire_lem p xs (put x (pred (count_of x m)) m) u in
    elim (Bool-cases (x == p)) [
      | inl here ↦
          let same : x ≡ p = (==_iff x p).0 here in
          let absent : elem p xs ≡ false = rw same at a in
          (
            c ∙ (rw (absent, count_of-put p x (pred (count_of x m)) m, here, same) refl),
            e ∙ (rw (absent, elem-put p x (pred (count_of x m)) m, here) refl),
          )
      | inr there ↦ (
        c ∙ (rw (count_of-put p x (pred (count_of x m)) m, there) refl),
        e ∙ (rw (elem-put p x (pred (count_of x m)) m, there) refl),
      )
    ]

module _ {Key : Type 0} (env : Env Key) where
  -- The entries of a port's keys, in the order of the configuration.
  unfoldable pub entries_of : ℕ → List KeyConfig → List (CipherEntry Key)
  entries_of p [] = []
  entries_of p (k ∷ ks) =
      let rest = entries_of p ks in
      if k.port == p
      then elim (env.new_encryption_key k.cipher k.secret) [
        | inl e ↦ rest
        | inr key ↦ make_cipher_entry env.hashes env.shadowsocks k.id key k.secret ∷ rest
      ]
      else rest

  pub record Built (p : ℕ) (ks : List KeyConfig) (m m' : List (ℕ × ℤ))
      (c c' : List (ℕ × List (CipherEntry Key))) : Type 0 where
    pub count : count_of p m' ≡ (if has_key p ks then pos 1 else count_of p m)
    pub changed : elem p (keys m') ≡ (has_key p ks || elem p (keys m))
    pub ciphers : ciphers_of p c' ≡ ciphers_of p c ++ entries_of p ks
    pub listed : elem p (keys c') ≡ (has_key p ks || elem p (keys c))

  ciphers_of-put :
      (p q : ℕ) (l : List (CipherEntry Key)) (c : List (ℕ × List (CipherEntry Key)))
      → ciphers_of p (put q l c) ≡ (if q == p then l else ciphers_of p c)
  unfolding ciphers_of
  ciphers_of-put p q l c = elim (Bool-cases (q == p)) [
    | inl h ↦ rw (get-put p q l c, ciphers_of, h) refl
    | inr h ↦ rw (get-put p q l c, ciphers_of, h) refl
  ]

  pub read_keys-Built :
      (p : ℕ) (ks : List KeyConfig) (m m' : List (ℕ × ℤ)) (c c' : List (ℕ × List (CipherEntry Key)))
      → read_keys env ks m c ≡ inr (m', c')
      → Built p ks m m' c c'
  unfolding read_keys has_key entries_of
  read_keys-Built p [] m m' c c' h =
      let (hm, hc) : (m ≡ m') × (c ≡ c') = (ground arith, ground arith) in
      rw (← hm, ← hc)
        (record { count = refl; changed = refl; ciphers = sym (append-nil _); listed = refl })
  read_keys-Built p (k ∷ ks) m m' c c' h =
      elim (key_cases (env.new_encryption_key k.cipher k.secret)) [
        | inl (e, bad) ↦ cc (rw (bad, read_keys) at h)
        | inr (key, made) ↦
            let entry = make_cipher_entry env.hashes env.shadowsocks k.id key k.secret in
            let l = ciphers_of k.port c ++ (entry ∷ []) in
            let b =
              read_keys-Built p ks (put k.port (pos 1) m) m' (put k.port l c) c'
                (rw (made, read_keys) at h) in
            elim (Bool-cases (k.port == p)) [
              | inl here ↦
                  let same : k.port ≡ p = (==_iff k.port p).0 here in
                  record {
                    count =
                        b.count
                        ∙ (rw (count_of-put p k.port (pos 1) m, here)
                            (elim (Bool-cases (has_key p ks)) [
                              | inl t ↦ rw t refl
                              | inr f ↦ rw f refl
                            ]));
                    changed =
                        b.changed
                        ∙ (rw (elem-put p k.port (pos 1) m, here)
                            (elim (Bool-cases (has_key p ks)) [
                              | inl t ↦ rw t refl
                              | inr f ↦ rw f refl
                            ]));
                    ciphers =
                        b.ciphers
                        ∙ (rw (ciphers_of-put p k.port l c, here, made)
                            (rw same
                              (append_assoc (ciphers_of p c) (entry ∷ []) (entries_of p ks))));
                    listed =
                        b.listed
                        ∙ (rw (elem-put p k.port l c, here)
                            (elim (Bool-cases (has_key p ks)) [
                              | inl t ↦ rw t refl
                              | inr f ↦ rw f refl
                            ]));
                  }
              | inr there ↦ record {
                count = b.count ∙ (rw (count_of-put p k.port (pos 1) m, there) refl);
                changed = b.changed ∙ (rw (elem-put p k.port (pos 1) m, there) refl);
                ciphers = b.ciphers ∙ (rw (ciphers_of-put p k.port l c, there) refl);
                listed = b.listed ∙ (rw (elem-put p k.port l c, there) refl);
              }
            ]
      ]
