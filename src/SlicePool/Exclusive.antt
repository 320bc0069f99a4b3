-- ===== src/SlicePool/Exclusive.antt =====
-- internal/slicepool/slicepool.go: who holds the slices.
use outline_ss_server.Prelude.{
  ℕ, ◌+◌, ◌<◌, ◌≡◌, refl, ap, sym, ◌∙◌, inl, inr, true, false, none, some, List, [], ◌∷◌, ◌==◌,
  ==_iff, if◌then◌else◌, Bool-cases, arith,
}
use outline_ss_server.Prelude.Maps.{nat_eq, get, put, elem, Once, get-put_eq, get-put_ne}
use outline_ss_server.SlicePool.{Slices, remove_first, PoolCall, acquire_call, release_call}

-- `sync.Pool.Get` gives only what was put there.
unfoldable pub Picks : PoolCall → Type 0
Picks (acquire_call pick i) = (free : List ℕ) (h : ℕ) → pick free ≡ some h → elem h free ≡ true
Picks (release_call i) = Unit

unfoldable pub AllPick : List PoolCall → Type 0
AllPick [] = Unit
AllPick (c ∷ cs) = Picks c × AllPick cs

-- No slice is held twice, none is held and in the pool, and each has the pool's length.
pub record Exclusive (s : Slices) : Type 0 where
  pub one_holder : (i j h : ℕ) → get i s.held ≡ some h → get j s.held ≡ some h → i ≡ j
  pub not_free : (i h : ℕ) → get i s.held ≡ some h → elem h s.free ≡ false
  pub once : Once s.free
  pub held_below : (i h : ℕ) → get i s.held ≡ some h → (h < s.next) × (s.size h ≡ s.len)
  pub free_below : (h : ℕ) → elem h s.free ≡ true → (h < s.next) × (s.size h ≡ s.len)

elem-remove : (h q : ℕ) (xs : List ℕ) → elem q xs ≡ false → elem q (remove_first h xs) ≡ false
unfolding elem remove_first
elem-remove h q [] e = refl
elem-remove h q (x ∷ xs) e = elim (Bool-cases (x == q)) [
  | inl same ↦ cc (rw same at e)
  | inr ne ↦ elim (Bool-cases (x == h)) [
    | inl here ↦ rw here (rw ne at e)
    | inr there ↦ rw (there, ne) (elem-remove h q xs (rw ne at e))
  ]
]

pub removed-Once :
    (h : ℕ) (xs : List ℕ)
    → Once xs
    → Once (remove_first h xs) × (elem h (remove_first h xs) ≡ false)
unfolding Once elem remove_first
removed-Once h [] u = (tt, refl)
removed-Once h (x ∷ xs) (a, u) = elim (Bool-cases (x == h)) [
  | inl here ↦ let same : x ≡ h = (==_iff x h).0 here in rw here (u, rw same at a)
  | inr there ↦
      let (v, gone) = removed-Once h xs u in rw there ((elem-remove h x xs a, v), rw there gone)
]

still_free : (h q : ℕ) (xs : List ℕ) → elem q (remove_first h xs) ≡ true → elem q xs ≡ true
still_free h q xs e = elim (Bool-cases (elem q xs)) [
  | inl t ↦ t
  | inr f ↦ cc (elem-remove h q xs f, e)
]

some_eq : (a b : ℕ) → some a ≡ some b → a ≡ b
some_eq a b e = ground arith

-- The state after a slice, which nobody holds, is given to a lazy slice that is empty.
pub give-Exclusive :
    (s s' : Slices) (i h : ℕ)
    → Exclusive s'
    → s'.held ≡ s.held
    → get i s.held ≡ none
    → ((j : ℕ) → get j s.held ≡ some h → ⊥)
    → elem h s'.free ≡ false
    → (h < s'.next) × (s'.size h ≡ s'.len)
    → Exclusive (record s' { held = put i h s'.held })
give-Exclusive s s' i h x same empty nobody out low = record {
  one_holder = λ j k g e f. elim (Bool-cases (i == j)) [
    | inl ij ↦ elim (Bool-cases (i == k)) [
      | inl ik ↦ sym ((==_iff i j).0 ij) ∙ (==_iff i k).0 ik
      | inr ik ↦
          let hg : h ≡ g = some_eq h g (sym (get-put_eq j i h s'.held ij) ∙ e) in
          absurd (
            nobody k
              (ap (get k) (sym same) ∙ sym (get-put_ne k i h s'.held ik) ∙ f ∙ ap some (sym hg)))
    ]
    | inr ij ↦ elim (Bool-cases (i == k)) [
      | inl ik ↦
          let hg : h ≡ g = some_eq h g (sym (get-put_eq k i h s'.held ik) ∙ f) in
          absurd (
            nobody j
              (ap (get j) (sym same) ∙ sym (get-put_ne j i h s'.held ij) ∙ e ∙ ap some (sym hg)))
      | inr ik ↦
          x.one_holder j k g (sym (get-put_ne j i h s'.held ij) ∙ e)
            (sym (get-put_ne k i h s'.held ik) ∙ f)
    ]
  ];
  not_free = λ j g e. elim (Bool-cases (i == j)) [
    | inl ij ↦ let hg : h ≡ g = some_eq h g (sym (get-put_eq j i h s'.held ij) ∙ e) in rw (← hg) out
    | inr ij ↦ x.not_free j g (sym (get-put_ne j i h s'.held ij) ∙ e)
  ];
  once = x.once;
  held_below = λ j g e. elim (Bool-cases (i == j)) [
    | inl ij ↦ let hg : h ≡ g = some_eq h g (sym (get-put_eq j i h s'.held ij) ∙ e) in rw (← hg) low
    | inr ij ↦ x.held_below j g (sym (get-put_ne j i h s'.held ij) ∙ e)
  ];
  free_below = x.free_below;
}

pub Exclusive-picked :
    (s : Slices) (h : ℕ) → Exclusive s → Exclusive (record s { free = remove_first h s.free })
Exclusive-picked s h x = record {
  one_holder = x.one_holder;
  not_free = λ i g e. elem-remove h g s.free (x.not_free i g e);
  once = (removed-Once h s.free x.once).0;
  held_below = x.held_below;
  free_below = λ g e. x.free_below g (still_free h g s.free e);
}

-- A new slice changes nothing for the others.
pub Exclusive-new :
    (s : Slices)
    → Exclusive s
    → Exclusive
        (record s { size = λ h. if h == s.next then s.len else s.size h; next = s.next + 1 })
Exclusive-new s x = record {
  one_holder = x.one_holder;
  not_free = x.not_free;
  once = x.once;
  held_below = λ i g e. older g (x.held_below i g e);
  free_below = λ g e. older g (x.free_below g e);
}
  where
    older :
        (g : ℕ)
        → (g < s.next) × (s.size g ≡ s.len)
        → (g < s.next + 1) × ((if g == s.next then s.len else s.size g) ≡ s.len)
    older g (l, e) = (omega arith, ground arith)
