-- ===== src/Replay/Negative.antt =====
-- A negative `replay_history` in service/replay.go: `capacity` is an `int`, and only 0 disables.
use outline_ss_server.Prelude.{ℕ, ◌≡◌, refl, true, false, some, List, [], ◌∷◌, arith}
use outline_ss_server.Replay.{
  ReplayCache, negsuc, contains, rotate, is_full, is_zero, add_hash, add, add_all, pre_hash,
  new_replay_cache,
}
use outline_ss_server.Replay.Recall.{contains-insert, contains-insert_self}

module _ (k : ℕ) where
  add_hash-capacity :
      (c : ReplayCache) (x : ℕ) → c.capacity ≡ negsuc k → (add_hash c x).1.capacity ≡ negsuc k
  unfolding add_hash rotate is_full
  add_hash-capacity c x e = ground arith

  add_hash-archive :
      (c : ReplayCache) (x : ℕ)
      → c.capacity ≡ negsuc k
      → c.archive ≡ []
      → (add_hash c x).1.archive ≡ []
  unfolding add_hash rotate is_full
  add_hash-archive c x e a = ground arith

  add_hash-keeps :
      (c : ReplayCache) (x h : ℕ)
      → c.capacity ≡ negsuc k
      → contains c.active h ≡ true
      → contains (add_hash c x).1.active h ≡ true
  unfolding add_hash rotate is_full
  add_hash-keeps c x h e m = ground (arith, contains-insert c.active x h)

  add_hash-holds :
      (c : ReplayCache) (h : ℕ) → c.capacity ≡ negsuc k → contains (add_hash c h).1.active h ≡ true
  unfolding add_hash rotate is_full
  add_hash-holds c h e = ground (arith, contains-insert_self c.active h)

  add_enabled_negative :
      (c : ReplayCache) (id salt : List ℕ)
      → c.capacity ≡ negsuc k
      → add (some c) id salt
        ≡ ((add_hash c (pre_hash id salt)).0, some (add_hash c (pre_hash id salt)).1)
  unfolding add is_zero
  add_enabled_negative c id salt e = ground arith

  add_all-capacity :
      (c : ReplayCache) (hs : List (List ℕ × List ℕ))
      → c.capacity ≡ negsuc k
      → c.archive ≡ []
      → (c' : ReplayCache) × (add_all (some c) hs ≡ some c')
        × (c'.capacity ≡ negsuc k)
        × (c'.archive ≡ [])
  unfolding add_all
  add_all-capacity c [] e a = (c, refl, e, a)
  add_all-capacity c ((id, salt) ∷ hs) e a = rw (add_enabled_negative c id salt e) (
      add_all-capacity (add_hash c (pre_hash id salt)).1 hs (add_hash-capacity c _ e)
        (add_hash-archive c _ e a))

  add_all-keeps :
      (h : ℕ) (c : ReplayCache) (hs : List (List ℕ × List ℕ))
      → c.capacity ≡ negsuc k
      → c.archive ≡ []
      → contains c.active h ≡ true
      → (c' : ReplayCache) × (add_all (some c) hs ≡ some c')
        × (c'.capacity ≡ negsuc k)
        × (c'.archive ≡ [])
        × (contains c'.active h ≡ true)
  unfolding add_all
  add_all-keeps h c [] e a m = (c, refl, e, a, m)
  add_all-keeps h c ((id, salt) ∷ hs) e a m = rw (add_enabled_negative c id salt e) (
      add_all-keeps h (add_hash c (pre_hash id salt)).1 hs (add_hash-capacity c _ e)
        (add_hash-archive c _ e a) (add_hash-keeps c _ h e m))

  held-refused : (c : ReplayCache) (h : ℕ) → contains c.active h ≡ true → (add_hash c h).0 ≡ false
  unfolding add_hash
  held-refused c h m = ground arith

-- Every negative capacity passes the constructor's check, and the cache that it gives never rotates:
-- its archive stays empty whatever is added, and each handshake that was added stays in its active set
-- and is refused when it comes again, however many others follow.
pub add_negative :
    (k : ℕ)
    → (c : ReplayCache) × (new_replay_cache (negsuc k) ≡ some c)
      × ((before after : List (List ℕ × List ℕ)) (id salt : List ℕ)
          → (c' : ReplayCache) × (add_all (add (add_all (some c) before) id salt).1 after ≡ some c')
            × (c'.archive ≡ [])
            × (contains c'.active (pre_hash id salt) ≡ true)
            × ((add (some c') id salt).0 ≡ false))
unfolding new_replay_cache
add_negative k =
    let c : ReplayCache = record { capacity = negsuc k; active = []; archive = [] } in
    (
      c,
      refl,
      λ before after id salt.
          let h = pre_hash id salt in
          let (c₁, e₁, n₁, a₁) = add_all-capacity k c before refl refl in
          let (c₃, e₃, n₃, a₃, m₃) =
            add_all-keeps k h (add_hash c₁ h).1 after (add_hash-capacity k c₁ h n₁)
              (add_hash-archive k c₁ h n₁ a₁) (add_hash-holds k c₁ h n₁) in
          (
            c₃,
            rw (e₁, add_enabled_negative k c₁ id salt n₁) e₃,
            a₃,
            m₃,
            rw (add_enabled_negative k c₃ id salt n₃) (held-refused k c₃ h m₃),
          ),
    )
