-- ===== src/Replay/Guard.antt =====
-- A cache that refuses one handshake, as its clients meet it: through `Add` of service/replay.go.
use outline_ss_server.Prelude.{
  ℕ, suc, ◌≤◌, ◌≡◌, ap, ◌∙◌, inl, inr, false, Option, some, List, arith,
}
use outline_ss_server.Replay.{ReplayCache, add_hash, add, pre_hash}
use outline_ss_server.Replay.Recall.{
  Fits, Recalls, add_enabled, add_hash-Fits, add_hash-Recalls, add_hash-starts, Recalls-refused,
}

-- A cache of capacity n that refuses a handshake, and goes on so for k more.
pub record Guards (n k h : ℕ) (r : Option ReplayCache) : Type 0 where
  pub cache : ReplayCache
  pub held : r ≡ some cache
  pub fits : Fits n cache
  pub recalls : Recalls n k h cache

weaker : (n k m h : ℕ) (c : ReplayCache) → k ≤ m → Recalls n m h c → Recalls n k h c
weaker n k m h c l r = record {
  size = r.size;
  budget = omega (arith, r.budget);
  held = elim r.held [ inl a ↦ inl a | inr (a, b) ↦ inr (a, omega arith) ];
}

pub Guards-weaker : {n k m h : ℕ} {r : Option ReplayCache} → k ≤ m → Guards n m h r → Guards n k h r
Guards-weaker {n} {k} {m} {h} l g = record {
  cache = g.cache;
  held = g.held;
  fits = g.fits;
  recalls = weaker n k m h g.cache l g.recalls;
}

added :
    {n : ℕ} {c : ReplayCache} {r : Option ReplayCache} (id salt : List ℕ)
    → r ≡ some c
    → Fits n c
    → add r id salt ≡ ((add_hash c (pre_hash id salt)).0, some (add_hash c (pre_hash id salt)).1)
added {n} {c} id salt e f = ap (λ x. add x id salt) e ∙ add_enabled n c id salt f

pub Guards-add :
    {n k h : ℕ} {r : Option ReplayCache} (id salt : List ℕ)
    → Guards n (suc k) h r
    → Guards n k h (add r id salt).1
Guards-add {n} {k} {h} id salt g = record {
  cache = (add_hash g.cache (pre_hash id salt)).1;
  held = ap (λ x. x.1) (added id salt g.held g.fits);
  fits = add_hash-Fits n (pre_hash id salt) g.cache g.fits;
  recalls = add_hash-Recalls n k h (pre_hash id salt) g.cache g.fits g.recalls;
}

pub Guards-starts :
    {n : ℕ} {c : ReplayCache} {r : Option ReplayCache} (id salt : List ℕ)
    → r ≡ some c
    → Fits n c
    → Guards n n (pre_hash id salt) (add r id salt).1
Guards-starts {n} {c} id salt e f = record {
  cache = (add_hash c (pre_hash id salt)).1;
  held = ap (λ x. x.1) (added id salt e f);
  fits = add_hash-Fits n (pre_hash id salt) c f;
  recalls = add_hash-starts n (pre_hash id salt) c f;
}

pub Guards-refuses :
    {n k : ℕ} {r : Option ReplayCache} (id salt : List ℕ)
    → Guards n k (pre_hash id salt) r
    → (add r id salt).0 ≡ false
Guards-refuses {n} {k} id salt g =
    ap (λ x. x.0) (added id salt g.held g.fits)
    ∙ Recalls-refused n k (pre_hash id salt) g.cache g.recalls

-- A cache of positive capacity n, within its bounds.
pub record Enabled (n : ℕ) (r : Option ReplayCache) : Type 0 where
  pub cache : ReplayCache
  pub held : r ≡ some cache
  pub fits : Fits n cache

pub Enabled-add :
    {n : ℕ} {r : Option ReplayCache} (id salt : List ℕ) → Enabled n r → Enabled n (add r id salt).1
Enabled-add {n} id salt v = record {
  cache = (add_hash v.cache (pre_hash id salt)).1;
  held = ap (λ x. x.1) (added id salt v.held v.fits);
  fits = add_hash-Fits n (pre_hash id salt) v.cache v.fits;
}
