-- ===== src/SlicePool/Calls.antt =====
-- internal/slicepool/slicepool.go: calls of lazy slices that never acquire twice.
use outline_ss_server.Prelude.{
  ℕ, ◌+◌, ◌≡◌, refl, ap, sym, ◌∙◌, inl, inr, Bool, true, false, Option, none, some, List, [], ◌∷◌,
  ◌==◌, ==_iff, ==_self, if◌then◌else◌, Bool-cases, Option-cases, arith,
}
use mathlib.Core.Path.{subst}
use outline_ss_server.Prelude.Maps.{
  nat_eq, get, put, del, elem, Once, get-put, get-del, get-del_eq, get-del_ne,
}
use outline_ss_server.Tcp.State.{done}
use outline_ss_server.SlicePool.{
  Slices, remove_first, get_slice, put_slice, acquire, release, PoolCall, acquire_call,
  release_call, pool_call, pool_calls,
}
use outline_ss_server.SlicePool.Exclusive.{
  Picks, AllPick, Exclusive, removed-Once, give-Exclusive, Exclusive-picked, Exclusive-new,
}

unfoldable pub is_some : {A : Type 0} → Option A → Bool
is_some none = false
is_some (some a) = true

-- Which lazy slices hold a slice after a call.
unfoldable pub after_call : PoolCall → (ℕ → Bool) → ℕ → Bool
after_call (acquire_call pick i) busy j = if i == j then true else busy j
after_call (release_call i) busy j = if i == j then false else busy j

-- Each `Acquire` is on a lazy slice that holds nothing.
unfoldable pub Proper : List PoolCall → (ℕ → Bool) → Type 0
Proper [] busy = Unit
Proper (acquire_call pick i ∷ cs) busy =
    (busy i ≡ false) × Proper cs (after_call (acquire_call pick i) busy)
Proper (release_call i ∷ cs) busy = Proper cs (after_call (release_call i) busy)

-- A call that has been made: the state that it leaves.
record Made (c : PoolCall) (s : Slices) : Type 0 where
  after : Slices
  result : pool_call c s ≡ done after
  exclusive : Exclusive after
  holders : (j : ℕ) → is_some (get j after.held) ≡ after_call c (λ k. is_some (get k s.held)) j

held_after :
    (i h j : ℕ) (m : List (ℕ × ℕ))
    → is_some (get j (put i h m)) ≡ (if i == j then true else is_some (get j m))
unfolding is_some
held_after i h j m = elim (Bool-cases (i == j)) [
  | inl e ↦ rw (get-put j i h m, e) refl
  | inr e ↦ rw (get-put j i h m, e) refl
]

left_after :
    (i j : ℕ) (m : List (ℕ × ℕ))
    → is_some (get j (del i m)) ≡ (if i == j then false else is_some (get j m))
unfolding is_some
left_after i j m = elim (Bool-cases (i == j)) [
  | inl e ↦ rw (get-del j i m, e) refl
  | inr e ↦ rw (get-del j i m, e) refl
]

acquire-Made :
    (pick : List ℕ → Option ℕ) (i : ℕ) (s : Slices)
    → Picks (acquire_call pick i)
    → get i s.held ≡ none
    → Exclusive s
    → Made (acquire_call pick i) s
unfolding pool_call acquire get_slice Picks after_call
acquire-Made pick i s picks empty x = elim (Option-cases (pick s.free)) [
  | inr (h, chosen) ↦
      let s' : Slices = record s { free = remove_first h s.free } in
      record {
        after = record s' { held = put i h s'.held };
        result = rw (empty, pool_call, acquire, chosen, get_slice) refl;
        exclusive =
            give-Exclusive s s' i h (Exclusive-picked s h x) refl empty
              (λ j e. cc (x.not_free j h e, picks s.free h chosen)) (removed-Once h s.free x.once).1
              (x.free_below h (picks s.free h chosen));
        holders = λ j. held_after i h j s.held;
      }
  | inl nothing ↦
      let s' : Slices = record s {
        size = λ h. if h == s.next then s.len else s.size h;
        next = s.next + 1;
      } in
      record {
        after = record s' { held = put i s.next s'.held };
        result = rw (empty, pool_call, acquire, nothing, get_slice) refl;
        exclusive =
            give-Exclusive s s' i s.next (Exclusive-new s x) refl empty
              (λ j e. absurd (omega (arith, (x.held_below j s.next e).0)))
              (elim (Bool-cases (elem s.next s.free)) [
                | inr f ↦ f
                | inl t ↦ absurd (omega (arith, (x.free_below s.next t).0))
              ])
              (omega arith, rw (==_self s.next) refl);
        holders = λ j. held_after i s.next j s.held;
      }
]

release-Made : (i : ℕ) (s : Slices) → Exclusive s → Made (release_call i) s
unfolding pool_call release put_slice after_call is_some Once elem
release-Made i s x = elim (Option-cases (get i s.held)) [
  | inl empty ↦ record {
    after = s;
    result = rw (empty, pool_call, release) refl;
    exclusive = x;
    holders = λ j. elim (Bool-cases (i == j)) [
      | inl e ↦
          let same : i ≡ j = (==_iff i j).0 e in
          rw e (ap is_some (ap (λ k. get k s.held) (sym same) ∙ empty))
      | inr e ↦ rw e refl
    ];
  }
  | inr (h, found) ↦
      let (low, fit) = x.held_below i h found in
      let s' : Slices = record s { free = h ∷ s.free } in
      record {
        after = record s' { held = del i s'.held };
        result = rw (found, pool_call, release, fit, put_slice, ==_self s.len) refl;
        exclusive = record {
          one_holder = λ j k g e f. x.one_holder j k g (kept i j g s e) (kept i k g s f);
          not_free = λ j g e. elim (Bool-cases (h == g)) [
            | inr ne ↦ rw ne (x.not_free j g (kept i j g s e))
            | inl same ↦
                let hg : h ≡ g = (==_iff h g).0 same in
                let ij : i ≡ j = x.one_holder i j g (found ∙ ap some hg) (kept i j g s e) in
                cc (get-del_eq j i s.held ((==_iff i j).1 ij), e)
          ];
          once = (x.not_free i h found, x.once);
          held_below = λ j g e. x.held_below j g (kept i j g s e);
          free_below = λ g e. elim (Bool-cases (h == g)) [
            | inl same ↦ let hg : h ≡ g = (==_iff h g).0 same in rw (← hg) (low, fit)
            | inr ne ↦ x.free_below g (rw ne at e)
          ];
        };
        holders = λ j. left_after i j s.held;
      }
]
  where
    kept : (i j g : ℕ) (s : Slices) → get j (del i s.held) ≡ some g → get j s.held ≡ some g
    kept i j g s e = elim (Bool-cases (i == j)) [
      | inl same ↦ cc (get-del_eq j i s.held same, e)
      | inr ne ↦ sym (get-del_ne j i s.held ne) ∙ e
    ]

Proper-same :
    (cs : List PoolCall) (f g : ℕ → Bool) → ((j : ℕ) → f j ≡ g j) → Proper cs f → Proper cs g
Proper-same cs f g e p = subst (Proper cs) (λ i j. e j i) p

-- From a state in which no slice is held twice and none is held and in the pool, if each `Acquire` is of
-- a lazy slice that holds nothing, whatever the pool picks of what was put into it, then no call panics,
-- and it is so again at the end: no two lazy slices share a slice.
pub pool_calls-Exclusive :
    (cs : List PoolCall) (s : Slices)
    → Exclusive s
    → AllPick cs
    → Proper cs (λ j. is_some (get j s.held))
    → (s' : Slices) × (pool_calls cs s ≡ done s') × Exclusive s'
unfolding pool_calls AllPick Proper is_some
pool_calls-Exclusive [] s x picks proper = (s, refl, x)
pool_calls-Exclusive (acquire_call pick i ∷ cs) s x (p, picks) (empty, proper) =
    let none_held : get i s.held ≡ none = elim (Option-cases (get i s.held)) [
      | inl n ↦ n
      | inr (h, found) ↦ cc (rw found at empty)
    ] in
    let m = acquire-Made pick i s p none_held x in
    let (s', r, x') =
      pool_calls-Exclusive cs m.after m.exclusive picks
        (Proper-same cs _ _ (λ j. sym (m.holders j)) proper) in
    (s', rw (m.result, pool_calls) r, x')
pool_calls-Exclusive (release_call i ∷ cs) s x (p, picks) proper =
    let m = release-Made i s x in
    let (s', r, x') =
      pool_calls-Exclusive cs m.after m.exclusive picks
        (Proper-same cs _ _ (λ j. sym (m.holders j)) proper) in
    (s', rw (m.result, pool_calls) r, x')
