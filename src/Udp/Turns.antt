-- ===== src/Udp/Turns.antt =====
-- service/udp.go: what every step of the entries of the NAT table keeps.
use outline_ss_server.Prelude.{
  ℕ, ◌+◌, ◌≡◌, refl, ap, sym, ◌∙◌, inl, inr, String, true, false, none, some, List, [], ◌∷◌, ◌++◌,
  if◌then◌else◌, map, Bool-cases, Option-cases, arith,
}
use outline_ss_server.Prelude.Maps.{
  string_eq, keys, elem, Once, elem-keys, elem-put, elem-del, beq_self,
}
use text.Mathlib.Text.{◌==◌ as str_eq}
use text.Mathlib.TextEquality.{eq_iff}
use outline_ss_server.Udp.NatConn.{NatConn}
use outline_ss_server.Udp.NatMap.{NatMap, get, set, del, update, close, expire}
use outline_ss_server.Udp.Lifecycle.{
  Phase, entered, announced, copies, ended, reported, NatWorld, Step, add_sets, add_reports,
  add_goes, write, copy_ends, report_ends, remove, stop, open_in, adding_in, count, Orderly,
}

keys-phase :
    (xs ys : List (String × Phase)) (key : String) (b c : Phase)
    → keys (xs ++ ((key, b) ∷ ys)) ≡ keys (xs ++ ((key, c) ∷ ys))
unfolding keys
keys-phase [] ys key b c = refl
keys-phase ((k, d) ∷ xs) ys key b c = ap (◌∷◌ k) (keys-phase xs ys key b c)

count-middle :
    (f : Phase → ℕ) (xs ys : List (String × Phase)) (key : String) (b : Phase)
    → count f (xs ++ ((key, b) ∷ ys)) ≡ f b + count f (xs ++ ys)
unfolding count
count-middle f [] ys key b = refl
count-middle f ((k, d) ∷ xs) ys key b = omega (arith, count-middle f xs ys key b)

middle :
    (xs ys : List (String × Phase)) (key : String)
    → elem key (keys (xs ++ ((key, reported) ∷ ys))) ≡ true
unfolding elem keys
middle [] ys key = rw (beq_self key) refl
middle ((j, d) ∷ xs) ys key = elim (Bool-cases (str_eq j key)) [
  | inl h ↦ rw h refl
  | inr h ↦ rw h (middle xs ys key)
]

-- What is left of a list of goroutines without one of them.
record Without (xs ys : List (String × Phase)) (key : String) : Type 0 where
  left : Once (keys (xs ++ ys))
  gone : elem key (keys (xs ++ ys)) ≡ false
  others :
      (q : String)
      → str_eq key q ≡ false
      → elem q (keys (xs ++ ys)) ≡ elem q (keys (xs ++ ((key, reported) ∷ ys)))

without :
    (xs ys : List (String × Phase)) (key : String)
    → Once (keys (xs ++ ((key, reported) ∷ ys)))
    → Without xs ys key
unfolding Once keys elem
without [] ys key (a, u) = record { left = u; gone = a; others = λ q n. rw n refl }
without ((k, d) ∷ xs) ys key (a, u) =
    let rec = without xs ys key u in
    let apart : str_eq k key ≡ false = elim (Bool-cases (str_eq k key)) [
      | inr n ↦ n
      | inl same ↦ let e : k ≡ key = (eq_iff k key).0 same in cc (middle xs ys key, rw e at a)
    ] in
    record {
      left = (
        elim (Bool-cases (str_eq key k)) [
          | inl same ↦ let e : key ≡ k = (eq_iff key k).0 same in rw (← e) rec.gone
          | inr n ↦ rec.others k n ∙ a
        ],
        rec.left,
      );
      gone = rw apart rec.gone;
      others = λ q n. elim (Bool-cases (str_eq k q)) [
        | inl h ↦ rw h refl
        | inr h ↦ rw h (rec.others q n)
      ];
    }

module _ {Key : Type 0} where
  keys-expire : (now : ℕ) (m : List (String × NatConn Key)) → keys (map (expire now) m) ≡ keys m
  unfolding keys expire
  keys-expire now [] = refl
  keys-expire now ((k, c) ∷ m) = ap (◌∷◌ k) (keys-expire now m)

  -- An entry of the table is one of its keys.
  listed :
      (key : String) (m : NatMap Key) (entry : NatConn Key)
      → get key m ≡ some entry
      → elem key (keys m.key_conn) ≡ true
  unfolding get
  listed key m entry h = elem-keys key m.key_conn ∙ (rw h refl)

  unlisted : (key : String) (m : NatMap Key) → get key m ≡ none → elem key (keys m.key_conn) ≡ false
  unfolding get
  unlisted key m h = elem-keys key m.key_conn ∙ (rw h refl)

  keys-del :
      (key q : String) (m : NatMap Key)
      → elem key (keys m.key_conn) ≡ true
      → elem q (keys (del key m).1.key_conn)
        ≡ (if str_eq key q then false else elem q (keys m.key_conn))
  unfolding del
  keys-del key q m h = elim (Option-cases (get key m)) [
    | inl n ↦ cc (unlisted key m n, h)
    | inr (entry, found) ↦ rw (found, del) (elem-del q key m.key_conn)
  ]

  -- An entry goes from one phase to the next, and the table stays.
  record Advance (w : NatWorld Key) (xs ys : List (String × Phase)) (key : String) (b c : Phase)
      : Type 0 where
    once : Once (keys (xs ++ ((key, c) ∷ ys)))
    owned : (q : String) → elem q (keys (xs ++ ((key, c) ∷ ys))) ≡ elem q (keys w.nat.key_conn)
    counted : (w.added + open_in c ≡ w.removed + open_in b + count open_in (xs ++ ((key, c) ∷ ys)))
    alone :
        count adding_in (xs ++ ((key, c) ∷ ys)) + adding_in b
        ≡ (if w.adding then 1 else 0) + adding_in c

  advance :
      (w : NatWorld Key) (xs ys : List (String × Phase)) (key : String) (b c : Phase)
      → w.running ≡ xs ++ ((key, b) ∷ ys)
      → Orderly w
      → Advance w xs ys key b c
  advance w xs ys key b c place o =
      let k : keys (xs ++ ((key, c) ∷ ys)) ≡ keys w.running =
        keys-phase xs ys key c b ∙ ap keys (sym place) in
      record {
        once = rw k o.once;
        owned = λ q. ap (λ l. elem q l) k ∙ o.owned q;
        counted = omega (
          arith,
          o.counted,
          ap (count open_in) place,
          count-middle open_in xs ys key b,
          count-middle open_in xs ys key c,
        );
        alone = omega (
          arith,
          o.alone,
          ap (count adding_in) place,
          count-middle adding_in xs ys key b,
          count-middle adding_in xs ys key c,
        );
      }

  pub step-Orderly : (u v : NatWorld Key) → Step u v → Orderly u → Orderly v
  unfolding Once keys elem set update close count
  step-Orderly _ _ (add_sets w key crypto_key id info serving free absent) o = record {
    once = (o.owned key ∙ unlisted key w.nat absent, o.once);
    owned = λ q. elim (Bool-cases (str_eq key q)) [
      | inl h ↦ rw h (sym (elem-put q key _ w.nat.key_conn ∙ (rw h refl)))
      | inr h ↦ rw h (o.owned q ∙ sym (elem-put q key _ w.nat.key_conn ∙ (rw h refl)))
    ];
    counted = omega (arith, o.counted);
    alone = omega (arith, (rw free at o.alone));
  }
  step-Orderly _ _ (add_reports w xs ys key place) o =
      let a = advance w xs ys key entered announced place o in
      record {
        once = a.once;
        owned = a.owned;
        counted = omega (arith, a.counted);
        alone = omega (arith, a.alone);
      }
  step-Orderly _ _ (add_goes w xs ys key place) o =
      let a = advance w xs ys key announced copies place o in
      record {
        once = a.once;
        owned = a.owned;
        counted = omega (arith, a.counted);
        alone = elim (Bool-cases w.adding) [
          | inl busy ↦ omega (arith, (rw busy at a.alone))
          | inr free ↦ omega (arith, (rw free at a.alone))
        ];
      }
  step-Orderly _ _ (write w key entry dns now serving free found) o = record {
    once = o.once;
    owned = λ q.
        o.owned q
        ∙ sym (
            elem-put q key _ w.nat.key_conn ∙ (elim (Bool-cases (str_eq key q)) [
              | inl h ↦
                  let same : key ≡ q = (eq_iff key q).0 h in
                  rw h (
                    sym (
                      ap (λ x. elem x (keys w.nat.key_conn)) (sym same)
                      ∙ listed key w.nat entry found))
              | inr h ↦ rw h refl
            ]));
    counted = o.counted;
    alone = o.alone;
  }
  step-Orderly _ _ (copy_ends w xs ys key place) o =
      let a = advance w xs ys key copies ended place o in
      record {
        once = a.once;
        owned = a.owned;
        counted = omega (arith, a.counted);
        alone = omega (arith, a.alone);
      }
  step-Orderly _ _ (report_ends w xs ys key place) o =
      let a = advance w xs ys key ended reported place o in
      record {
        once = a.once;
        owned = a.owned;
        counted = omega (arith, a.counted);
        alone = omega (arith, a.alone);
      }
  step-Orderly _ _ (remove w xs ys key place) o =
      let w' = without xs ys key (rw (ap keys place) at o.once) in
      let here : elem key (keys w.nat.key_conn) ≡ true =
        sym (o.owned key) ∙ ap (λ l. elem key (keys l)) place ∙ middle xs ys key in
      record {
        once = w'.left;
        owned = λ q. sym (
            keys-del key q w.nat here ∙ (elim (Bool-cases (str_eq key q)) [
              | inl h ↦
                  let same : key ≡ q = (eq_iff key q).0 h in
                  rw h (sym (ap (λ x. elem x (keys (xs ++ ys))) (sym same) ∙ w'.gone))
              | inr h ↦
                  rw h (sym (w'.others q h ∙ ap (λ l. elem q (keys l)) (sym place) ∙ o.owned q))
            ]));
        counted =
            omega
              (arith, o.counted, ap (count open_in) place, count-middle open_in xs ys key reported);
        alone =
            omega (
              arith,
              o.alone,
              ap (count adding_in) place,
              count-middle adding_in xs ys key reported,
            );
      }
  step-Orderly _ _ (stop w now serving free) o = record {
    once = o.once;
    owned = λ q. o.owned q ∙ ap (λ l. elem q l) (sym (keys-expire now w.nat.key_conn));
    counted = o.counted;
    alone = o.alone;
  }
