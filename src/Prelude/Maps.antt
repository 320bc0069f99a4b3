-- ===== src/Prelude/Maps.antt =====
-- Go's maps as association lists with one entry for each key.
use Prim.Native.Nat.{ℕ}
use mathlib.Core.Path.{◌≡◌, refl, sym, ◌∙◌}
use mathlib.Core.Logic.{◌↔◌, inl, inr}
use mathlib.Core.Bool.{Bool, true, false}
use mathlib.Core.Option.{Option, none, some}
use mathlib.Core.List.{List, [], ◌∷◌}
use Prim.Native.String.{String}
use text.Mathlib.Text.{◌==◌ as str_eq}
use text.Mathlib.TextEquality.{eq_iff}
use outline_ss_server.Prelude.Tests.{◌==◌, ==_iff, if◌then◌else◌, Bool-cases}

-- The equality of a key type.
pub record Eq {ℓ} (A : Type ℓ) : Type ℓ where
  pub beq : A → A → Bool
  pub beq_iff : (a b : A) → (beq a b ≡ true) ↔ (a ≡ b)

instance abbrev pub nat_eq : Eq ℕ
nat_eq = record { beq = ◌==◌; beq_iff = ==_iff }

instance abbrev pub string_eq : Eq String
string_eq = record { beq = str_eq; beq_iff = eq_iff }

module _ {ℓ} {K : Type ℓ} ⦃e : Eq K⦄ where
  pub beq_self : (k : K) → e.beq k k ≡ true
  beq_self k = (e.beq_iff k k).1 refl

  -- Whether a list has an element.
  unfoldable pub elem : K → List K → Bool
  elem k [] = false
  elem k (x ∷ xs) = if e.beq x k then true else elem k xs

  -- No element twice.
  unfoldable pub Once : List K → Type 0
  unfolding elem
  Once [] = Unit {0}
  Once (x ∷ xs) = (elem x xs ≡ false) × Once xs

  -- Two keys that a test tells apart from one another, seen from a third.
  beq_apart : (a b c : K) → e.beq a b ≡ false → e.beq a c ≡ true → e.beq b c ≡ false
  beq_apart a b c n h = elim (Bool-cases (e.beq b c)) [
    | inl same ↦
        let ab : a ≡ b = (e.beq_iff a c).0 h ∙ sym ((e.beq_iff b c).0 same) in
        cc (n, (e.beq_iff a b).1 ab)
    | inr other ↦ other
  ]

  -- The order of the arguments of a test does not matter.
  beq_flip : (a b : K) → e.beq a b ≡ false → e.beq b a ≡ false
  beq_flip a b n = elim (Bool-cases (e.beq b a)) [
    | inl h ↦ cc (n, (e.beq_iff a b).1 (sym ((e.beq_iff b a).0 h)))
    | inr h ↦ h
  ]

module _ {ℓ κ} {K : Type ℓ} {V : Type κ} where
  unfoldable pub keys : List (K × V) → List K
  keys [] = []
  keys ((k, v) ∷ m) = k ∷ keys m

module _ {ℓ κ} {K : Type ℓ} {V : Type κ} ⦃e : Eq K⦄ where
  unfoldable pub get : K → List (K × V) → Option V
  get k [] = none
  get k ((j, v) ∷ m) = if e.beq j k then some v else get k m

  -- An entry that is there changes in place.
  unfoldable pub put : K → V → List (K × V) → List (K × V)
  put k v [] = (k, v) ∷ []
  put k v ((j, w) ∷ m) = if e.beq j k then (k, v) ∷ m else (j, w) ∷ put k v m

  unfoldable pub del : K → List (K × V) → List (K × V)
  del k [] = []
  del k ((j, w) ∷ m) = if e.beq j k then del k m else (j, w) ∷ del k m

  pub get-put :
      (j k : K) (v : V) (m : List (K × V))
      → get j (put k v m) ≡ (if e.beq k j then some v else get j m)
  unfolding get put
  get-put j k v [] = refl
  get-put j k v ((i, w) ∷ m) = elim (Bool-cases (e.beq i k)) [
    | inl here ↦
        let same : i ≡ k = (e.beq_iff i k).0 here in
        rw (here, same) (elim (Bool-cases (e.beq k j)) [ inl h ↦ rw h refl | inr h ↦ rw h refl ])
    | inr there ↦ elim (Bool-cases (e.beq i j)) [
      | inl h ↦ rw (there, h, beq_apart i k j there h) refl
      | inr h ↦ rw (there, h) (get-put j k v m)
    ]
  ]

  pub get-del :
      (j k : K) (m : List (K × V)) → get j (del k m) ≡ (if e.beq k j then none else get j m)
  unfolding get del
  get-del j k [] = elim (Bool-cases (e.beq k j)) [ inl h ↦ rw h refl | inr h ↦ rw h refl ]
  get-del j k ((i, w) ∷ m) = elim (Bool-cases (e.beq i k)) [
    | inl here ↦
        let same : i ≡ k = (e.beq_iff i k).0 here in
        rw here (
          get-del j k m
          ∙ (rw same (elim (Bool-cases (e.beq k j)) [ inl h ↦ rw h refl | inr h ↦ rw h refl ])))
    | inr there ↦ elim (Bool-cases (e.beq i j)) [
      | inl h ↦ rw (there, h, beq_apart i k j there h) refl
      | inr h ↦ rw (there, h) (get-del j k m)
    ]
  ]

  -- A key stands among the keys exactly if it has a value.
  pub elem-keys :
      (k : K) (m : List (K × V))
      → elem k (keys m) ≡ (elim (get k m) [ none ↦ false | some _ ↦ true ])
  unfolding elem keys get
  elem-keys k [] = refl
  elem-keys k ((j, v) ∷ m) = elim (Bool-cases (e.beq j k)) [
    | inl h ↦ rw h refl
    | inr h ↦ rw h (elem-keys k m)
  ]

  pub get-put_eq :
      (j k : K) (v : V) (m : List (K × V)) → e.beq k j ≡ true → get j (put k v m) ≡ some v
  get-put_eq j k v m h = get-put j k v m ∙ (rw h refl)

  pub get-put_ne :
      (j k : K) (v : V) (m : List (K × V)) → e.beq k j ≡ false → get j (put k v m) ≡ get j m
  get-put_ne j k v m h = get-put j k v m ∙ (rw h refl)

  pub get-del_eq : (j k : K) (m : List (K × V)) → e.beq k j ≡ true → get j (del k m) ≡ none
  get-del_eq j k m h = get-del j k m ∙ (rw h refl)

  pub get-del_ne : (j k : K) (m : List (K × V)) → e.beq k j ≡ false → get j (del k m) ≡ get j m
  get-del_ne j k m h = get-del j k m ∙ (rw h refl)

  pub Once-put : (k : K) (v : V) (m : List (K × V)) → Once (keys m) → Once (keys (put k v m))
  unfolding Once keys put elem
  Once-put k v [] u = (refl, tt)
  Once-put k v ((j, w) ∷ m) (a, u) = elim (Bool-cases (e.beq j k)) [
    | inl here ↦ let same : j ≡ k = (e.beq_iff j k).0 here in rw here (rw same at a, u)
    | inr there ↦ rw there (
      elem-keys j (put k v m)
          ∙ (rw (get-put_ne j k v m (beq_flip j k there)) (sym (elem-keys j m) ∙ a)),
      Once-put k v m u,
    )
  ]

  pub Once-del : (k : K) (m : List (K × V)) → Once (keys m) → Once (keys (del k m))
  unfolding Once keys del
  Once-del k [] u = tt
  Once-del k ((j, w) ∷ m) (a, u) = elim (Bool-cases (e.beq j k)) [
    | inl here ↦ rw here (Once-del k m u)
    | inr there ↦ rw there (
      elem-keys j (del k m)
          ∙ (rw (get-del_ne j k m (beq_flip j k there)) (sym (elem-keys j m) ∙ a)),
      Once-del k m u,
    )
  ]

  pub elem-put :
      (j k : K) (v : V) (m : List (K × V))
      → elem j (keys (put k v m)) ≡ (if e.beq k j then true else elem j (keys m))
  elem-put j k v m = elim (Bool-cases (e.beq k j)) [
    | inl h ↦ rw (elem-keys j (put k v m), get-put j k v m, h) refl
    | inr h ↦ rw (elem-keys j (put k v m), get-put j k v m, h) (sym (elem-keys j m))
  ]

  pub elem-del :
      (j k : K) (m : List (K × V))
      → elem j (keys (del k m)) ≡ (if e.beq k j then false else elem j (keys m))
  elem-del j k m = elim (Bool-cases (e.beq k j)) [
    | inl h ↦ rw (elem-keys j (del k m), get-del j k m, h) refl
    | inr h ↦ rw (elem-keys j (del k m), get-del j k m, h) (sym (elem-keys j m))
  ]
