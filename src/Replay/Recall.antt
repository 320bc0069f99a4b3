-- ===== src/Replay/Recall.antt =====
-- What `Add` of service/replay.go remembers.
use outline_ss_server.Prelude.{
  ℕ, zero, suc, ◌+◌, ◌≤◌, ◌<◌, ◌≡◌, refl, ◌⊎◌, true, false, some, List, [], ◌∷◌, arith, ==_self,
  length,
}
use outline_ss_server.Replay.{
  ReplayCache, new_replay_cache, pos, contains, insert, rotate, is_full, is_zero, add_hash, add,
  add_all, pre_hash,
}

pub contains-insert_self : (m : List ℕ) (h : ℕ) → contains (insert m h) h ≡ true
unfolding contains insert
contains-insert_self m h = ground (arith, ==_self h)

pub contains-insert : (m : List ℕ) (h j : ℕ) → contains m j ≡ true → contains (insert m h) j ≡ true
unfolding contains insert
contains-insert m h j e = ground arith

length-insert : (m : List ℕ) (h : ℕ) → length (insert m h) ≤ length m + 1
unfolding insert
length-insert m h = ground arith

-- `h` is found now, and stays so through `k` more additions.
pub record Recalls (n k h : ℕ) (c : ReplayCache) : Type 0 where
  pub size : c.capacity ≡ pos n
  pub budget : k ≤ n
  pub held :
      (contains c.active h ≡ true) ⊎ ((contains c.archive h ≡ true) × (length c.active + k ≤ n))

-- Every cache's active set fits its capacity.
pub record Fits (n : ℕ) (c : ReplayCache) : Type 0 where
  pub size : c.capacity ≡ pos n
  pub positive : 0 < n
  pub active : length c.active ≤ n
  pub archive : length c.archive ≤ n

pub add_hash-Fits : (n x : ℕ) (c : ReplayCache) → Fits n c → Fits n (add_hash c x).1
unfolding add_hash rotate is_full
add_hash-Fits n x c v = ground (arith, length-insert c.active x, length-insert [] x)

pub add_hash-Recalls :
    (n k h x : ℕ) (c : ReplayCache)
    → Fits n c
    → Recalls n (suc k) h c
    → Recalls n k h (add_hash c x).1
unfolding add_hash rotate is_full
add_hash-Recalls n k h x c f r =
    ground (arith, contains-insert c.active x h, length-insert c.active x, length-insert [] x)

pub add_hash-starts : (n h : ℕ) (c : ReplayCache) → Fits n c → Recalls n n h (add_hash c h).1
unfolding add_hash rotate is_full
add_hash-starts n h c f = ground (arith, contains-insert_self c.active h, contains-insert_self [] h)

pub Recalls-refused : (n k h : ℕ) (c : ReplayCache) → Recalls n k h c → (add_hash c h).0 ≡ false
unfolding add_hash
Recalls-refused n k h c r = ground arith

-- With a positive capacity `Add` is its locked part.
pub add_enabled :
    (n : ℕ) (c : ReplayCache) (id salt : List ℕ)
    → Fits n c
    → add (some c) id salt
      ≡ ((add_hash c (pre_hash id salt)).0, some (add_hash c (pre_hash id salt)).1)
unfolding add is_zero
add_enabled n c id salt v = ground arith

pub add_all-Fits :
    (n : ℕ) (c : ReplayCache) (hs : List (List ℕ × List ℕ))
    → Fits n c
    → (c' : ReplayCache) × (add_all (some c) hs ≡ some c') × Fits n c'
unfolding add_all is_zero
add_all-Fits n c [] v = (c, refl, v)
add_all-Fits n c ((id, salt) ∷ hs) v =
    rw (add_enabled n c id salt v)
      (add_all-Fits n (add_hash c (pre_hash id salt)).1 hs (add_hash-Fits n (pre_hash id salt) c v))

add_all-Recalls :
    (n h : ℕ) (c : ReplayCache) (hs : List (List ℕ × List ℕ)) (k : ℕ)
    → Fits n c
    → length hs ≤ k
    → Recalls n k h c
    → (c' : ReplayCache) × (m : ℕ) × (add_all (some c) hs ≡ some c') × Fits n c' × Recalls n m h c'
unfolding add_all
add_all-Recalls n h c [] k v l r = (c, k, refl, v, r)
add_all-Recalls n h c ((id, salt) ∷ hs) zero v l r = absurd (omega arith)
add_all-Recalls n h c ((id, salt) ∷ hs) (suc k) v l r = rw (add_enabled n c id salt v) (
    add_all-Recalls n h (add_hash c (pre_hash id salt)).1 hs k
      (add_hash-Fits n (pre_hash id salt) c v) (omega arith)
      (add_hash-Recalls n k h (pre_hash id salt) c v r))

pub new-Fits : (n : ℕ) (c : ReplayCache) → 0 < n → new_replay_cache (pos n) ≡ some c → Fits n c
unfolding new_replay_cache
new-Fits n c p e = ground arith

-- A handshake that was added to a fresh cache of capacity n, after any earlier ones, is refused
-- when it comes again after at most n others.
pub add_remembers :
    (n : ℕ) (c : ReplayCache) (before after : List (List ℕ × List ℕ)) (id salt : List ℕ)
    → 0 < n
    → new_replay_cache (pos n) ≡ some c
    → length after ≤ n
    → (add (add_all (add (add_all (some c) before) id salt).1 after) id salt).0 ≡ false
add_remembers n c before after id salt p e l =
    let (c₁, e₁, v₁) = add_all-Fits n c before (new-Fits n c p e) in
    let h = pre_hash id salt in
    let v₂ = add_hash-Fits n h c₁ v₁ in
    let (c₃, m, e₃, v₃, r₃) = add_all-Recalls n h _ after n v₂ l (add_hash-starts n h c₁ v₁) in
    rw (e₁, add_enabled n c₁ id salt v₁, e₃, add_enabled n c₃ id salt v₃)
      (Recalls-refused n m h c₃ r₃)
