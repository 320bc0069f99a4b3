-- ===== src/Replay/Bounds.antt =====
-- What the cache of service/replay.go never does: refuse a handshake that was not seen, outgrow its
-- capacity, or, when it is disabled, refuse or store anything.
use mathlib.Core.List.{Mem, mem-cons_self, mem-cons_of_mem, mem-map_of_mem}
use outline_ss_server.Prelude.{
  ℕ, ◌≤◌, ◌<◌, ◌≡◌, inl, inr, true, false, Option, none, some, List, [], ◌∷◌, map, arith, ◌==◌,
  ==_iff, length, Bool-cases,
}
use outline_ss_server.Replay.{
  ReplayCache, ℤ, pos, contains, insert, rotate, is_full, is_zero, add_hash, add, add_all, pre_hash,
  new_replay_cache,
}
use outline_ss_server.Replay.Recall.{add_all-Fits, new-Fits}

abbrev pub hash_of : List ℕ × List ℕ → ℕ
hash_of p = pre_hash p.0 p.1

module _ (P : ℕ → Type 0) where
  -- Every hash of the set is one of `P`.
  pub record Within (m : List ℕ) : Type 0 where
    pub at : (h : ℕ) → contains m h ≡ true → P h

  insert-Within : (m : List ℕ) (x : ℕ) → P x → Within m → Within (insert m x)
  unfolding insert contains
  insert-Within m x p w = record {
    at = λ h e. elim (Bool-cases (contains m x)) [
      | inl old ↦ w.at h (rw old at e)
      | inr new ↦ elim (Bool-cases (x == h)) [
        | inl same ↦ rw (← (==_iff x h).0 same) p
        | inr other ↦ w.at h (ground (arith, e))
      ]
    ];
  }

  nil-Within : Within []
  unfolding contains
  nil-Within = record { at = λ h e. cc }

  pub record Sound (c : ReplayCache) : Type 0 where
    pub active : Within c.active
    pub archive : Within c.archive

  rotate-Sound : (c : ReplayCache) → Sound c → Sound (rotate c)
  unfolding rotate
  rotate-Sound c s = elim (Bool-cases (is_full c)) [
    | inl full ↦ rw full (record { active = nil-Within; archive = s.active })
    | inr room ↦ rw room s
  ]

  add_hash-Sound : (c : ReplayCache) (x : ℕ) → P x → Sound c → Sound (add_hash c x).1
  unfolding add_hash
  add_hash-Sound c x p s = elim (Bool-cases (contains c.active x)) [
    | inl old ↦ rw old s
    | inr new ↦
        let r = rotate-Sound c s in
        rw new (record { active = insert-Within _ x p r.active; archive = r.archive })
  ]

  add_hash-refused : (c : ReplayCache) (x : ℕ) → Sound c → (add_hash c x).0 ≡ false → P x
  unfolding add_hash
  add_hash-refused c x s e = elim (Bool-cases (contains c.active x)) [
    | inl old ↦ s.active.at x old
    | inr new ↦ s.archive.at x (ground arith)
  ]

  abbrev SoundOption : Option ReplayCache → Type 0
  SoundOption none = Unit {0}
  SoundOption (some c) = Sound c

  add-Sound :
      (c : Option ReplayCache) (id salt : List ℕ)
      → P (pre_hash id salt)
      → SoundOption c
      → SoundOption (add c id salt).1
  unfolding add
  add-Sound none id salt p s = tt
  add-Sound (some c) id salt p s = elim (Bool-cases (is_zero c.capacity)) [
    | inl off ↦ rw off s
    | inr on ↦ rw on (add_hash-Sound c (pre_hash id salt) p s)
  ]

  add-refused :
      (c : Option ReplayCache) (id salt : List ℕ)
      → SoundOption c
      → (add c id salt).0 ≡ false
      → P (pre_hash id salt)
  unfolding add
  add-refused none id salt s e = cc
  add-refused (some c) id salt s e = elim (Bool-cases (is_zero c.capacity)) [
    | inl off ↦ cc (rw off at e)
    | inr on ↦ add_hash-refused c (pre_hash id salt) s (rw on at e)
  ]

  add_all-Sound :
      (c : Option ReplayCache) (hs : List (List ℕ × List ℕ))
      → ((p : List ℕ × List ℕ) → Mem p hs → P (hash_of p))
      → SoundOption c
      → SoundOption (add_all c hs)
  unfolding add_all
  add_all-Sound c [] h s = s
  add_all-Sound c ((id, salt) ∷ hs) h s =
      add_all-Sound (add c id salt).1 hs (λ p m. h p (mem-cons_of_mem (id, salt) m))
        (add-Sound c id salt (h (id, salt) mem-cons_self) s)

pub new-empty :
    (capacity : ℤ) (c : ReplayCache)
    → new_replay_cache capacity ≡ some c
    → (c.capacity ≡ capacity) × (c.active ≡ []) × (c.archive ≡ [])
unfolding new_replay_cache
new-empty capacity c e = ground arith

pub new-Sound :
    {P : ℕ → Type 0} (capacity : ℤ) (c : ReplayCache)
    → new_replay_cache capacity ≡ some c
    → Sound P c
new-Sound {P} capacity c e =
    let (_, a, b) = new-empty capacity c e in
    record { active = rw a (nil-Within P); archive = rw b (nil-Within P) }

-- A fresh cache refuses only handshakes that collide with an earlier one, whatever its capacity.
pub add_refuses_seen :
    (capacity : ℤ) (c : ReplayCache) (hs : List (List ℕ × List ℕ)) (id salt : List ℕ)
    → new_replay_cache capacity ≡ some c
    → (add (add_all (some c) hs) id salt).0 ≡ false
    → Mem (pre_hash id salt) (map hash_of hs)
add_refuses_seen capacity c hs id salt e r =
    add-refused (λ h. Mem h (map hash_of hs)) _ id salt
      (add_all-Sound (λ h. Mem h (map hash_of hs)) (some c) hs (λ p m. mem-map_of_mem hash_of m)
        (new-Sound capacity c e))
      r

-- No sequence of handshakes takes a cache of positive capacity n above 2 * n stored hashes: the
-- active set and the archive hold at most n each.
pub add_all-bounded :
    (n : ℕ) (c : ReplayCache) (hs : List (List ℕ × List ℕ))
    → 0 < n
    → new_replay_cache (pos n) ≡ some c
    → (c' : ReplayCache) × (add_all (some c) hs ≡ some c')
      × (length c'.active ≤ n)
      × (length c'.archive ≤ n)
add_all-bounded n c hs p e =
    let (c', e', v) = add_all-Fits n c hs (new-Fits n c p e) in (c', e', v.active, v.archive)

-- A nil cache and a cache of capacity 0 call every handshake new, and store nothing.
add_disabled :
    (c : ReplayCache) (hs : List (List ℕ × List ℕ)) (id salt : List ℕ)
    → c.capacity ≡ pos 0
    → (add_all (some c) hs ≡ some c)
      × (add_all none hs ≡ none)
      × ((add (some c) id salt).0 ≡ true)
      × ((add none id salt).0 ≡ true)
unfolding add_all add is_zero
add_disabled c [] id salt e = ground arith
add_disabled c ((i, s) ∷ hs) id salt e = ground (arith, add_disabled c hs id salt e)
