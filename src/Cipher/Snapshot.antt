-- ===== src/Cipher/Snapshot.antt =====
-- What `SnapshotForClientIP` of service/cipher_list.go returns.
use mathlib.Core.List.{append-nil, append_assoc, perm_middle, Perm}
use mathlib.Core.List.Perm
use outline_ss_server.Prelude.{
  ℕ, ◌+◌, ◌≡◌, refl, sym, ap, ◌∙◌, inl, inr, Bool, not, Option, none, some, List, [], ◌∷◌, ◌++◌,
  map, if◌then◌else◌, length, set, replicate, length-append, Bool-cases,
}
use outline_ss_server.Cipher.{Addr, CipherList, fill, matches_ip, snapshot_for_client_ip}

-- The elements that pass a test, in order.
abbrev pub select : (ℕ → Bool) → List ℕ → List ℕ
select test [] = []
select test (e ∷ es) = if test e then e ∷ select test es else select test es

abbrev blanks : List ℕ → List (Option ℕ)
blanks = map (λ _. none)

set-append :
    (done : List ℕ) (e : ℕ) (rest : List (Option ℕ))
    → set (map some done ++ none ∷ rest) (length done) (some e) ≡ map some (done ++ e ∷ []) ++ rest
set-append [] e rest = refl
set-append (d ∷ done) e rest = ap (◌∷◌ (some d)) (set-append done e rest)

length-snoc : (done : List ℕ) (e : ℕ) → length (done ++ e ∷ []) ≡ length done + 1
length-snoc done e = length-append done (e ∷ [])

-- A pass over `es` fills the slots from the index on with the elements that pass, in order.
fill-append :
    (test : ℕ → Bool) (es done : List ℕ) (rest : List (Option ℕ))
    → fill test es (map some done ++ (blanks (select test es) ++ rest)) (length done)
      ≡ (map some (done ++ select test es) ++ rest, length (done ++ select test es))
unfolding fill
fill-append test [] done rest = rw (append-nil done) refl
fill-append test (e ∷ es) done rest = elim (Bool-cases (test e)) [
  | inl pass ↦ rw pass (
      rw (set-append done e (blanks (select test es) ++ rest), ← length-snoc done e)
        (fill-append test es (done ++ e ∷ []) rest
          ∙ (rw (append_assoc done (e ∷ []) (select test es)) refl)))
  | inr fail ↦ rw fail (fill-append test es done rest)
]

blanks-middle : (xs ys : List ℕ) (x : ℕ) → blanks (xs ++ x ∷ ys) ≡ none ∷ blanks (xs ++ ys)
blanks-middle [] ys x = refl
blanks-middle (z ∷ xs) ys x = ap (◌∷◌ none) (blanks-middle xs ys x)

blanks-append : (xs ys : List ℕ) → blanks (xs ++ ys) ≡ blanks xs ++ blanks ys
blanks-append [] ys = refl
blanks-append (x ∷ xs) ys = ap (◌∷◌ none) (blanks-append xs ys)

module _ (test : ℕ → Bool) where
  blanks-select :
      (es : List ℕ)
      → replicate (length es) none ≡ blanks (select test es ++ select (λ e. not (test e)) es)
  blanks-select [] = refl
  blanks-select (e ∷ es) = elim (Bool-cases (test e)) [
    | inl pass ↦ rw pass (ap (◌∷◌ none) (blanks-select es))
    | inr fail ↦ rw fail (
        ap (◌∷◌ none) (blanks-select es)
        ∙ sym (blanks-middle (select test es) (select (λ e. not (test e)) es) e))
  ]

  blanks-split :
      (es : List ℕ)
      → replicate (length es) none
        ≡ blanks (select test es) ++ (blanks (select (λ e. not (test e)) es) ++ [])
  blanks-split es =
      blanks-select es
      ∙ blanks-append (select test es) (select (λ e. not (test e)) es)
      ∙ ap (◌++◌ (blanks (select test es))) (sym (append-nil _))

  pub select-perm : (es : List ℕ) → Perm es (select test es ++ select (λ e. not (test e)) es)
  select-perm [] = Perm.nil
  select-perm (e ∷ es) = elim (Bool-cases (test e)) [
    | inl pass ↦ rw pass (Perm.cons e (select-perm es))
    | inr fail ↦ rw fail (
        Perm.trans (Perm.cons e (select-perm es))
          (Perm.symm (perm_middle (select test es) (select (λ e. not (test e)) es))))
  ]

module _ {Key : Type 0} (cl : CipherList Key) (ip : Addr) where
  abbrev matching : ℕ → Bool
  matching e = matches_ip cl e ip

  -- No slot of the array is left nil or written out of range: the snapshot is the elements whose
  -- last client IP matches, in list order, followed by all others, in list order.
  pub snapshot-eq-select :
      snapshot_for_client_ip cl ip
      ≡ map some (
          select (λ e. matches_ip cl e ip) cl.list
          ++ select (λ e. not (matches_ip cl e ip)) cl.list)
  unfolding snapshot_for_client_ip
  snapshot-eq-select =
      let others = λ (e : ℕ). not (matching e) in
      rw
        (
          blanks-split matching cl.list,
          fill-append matching cl.list [] (blanks (select others cl.list) ++ []),
          fill-append others cl.list (select matching cl.list) [],
          snapshot_for_client_ip,
        )
        (append-nil _)

  -- A snapshot holds every element of the list exactly as often as the list does.
  pub snapshot-perm : Perm (snapshot_for_client_ip cl ip) (map some cl.list)
  snapshot-perm = rw snapshot-eq-select (Perm.map some (Perm.symm (select-perm matching cl.list)))
