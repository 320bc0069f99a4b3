-- ===== src/Tcp/Race/Kept.antt =====
-- The authenticators of one port of service/tcp.go: what every interleaving of their steps keeps.
use outline_ss_server.Prelude.{
  ℕ, zero, suc, ◌+◌, ◌≤◌, ◌≡◌, refl, inl, inr, true, some, List, [], ◌∷◌, ◌++◌, if◌then◌else◌, set,
  All, arith, Option-cases,
}
use outline_ss_server.Cipher
use outline_ss_server.Replay.{add}
use outline_ss_server.Replay.Guard.{Guards, Guards-weaker, Guards-add, Enabled, Enabled-add}
use outline_ss_server.Tcp.State.{Service}
use outline_ss_server.Tcp.Race.{
  Handler, Port, Move, arrive, reload, go, at_index, view, move, run_moves, acceptance, asks,
  asked_in, replay_checks,
}
use outline_ss_server.Tcp.Race.Shared.{HasKeys, HasSalt, Sound, run_stage-Step, accepted_by-new}

module _ {A : Type 0} (P : A → Type 0) where
  All-at : (xs : List A) (i : ℕ) (x : A) → at_index xs i ≡ some x → All P xs → P x
  unfolding at_index
  All-at [] i x e a = cc
  All-at (y ∷ ys) zero x e (p, a) = let same : y ≡ x = ground arith in rw (← same) p
  All-at (y ∷ ys) (suc i) x e (p, a) = All-at ys i x e a

  All-set : (xs : List A) (i : ℕ) (x : A) → P x → All P xs → All P (set xs i x)
  All-set [] i x p a = tt
  All-set (y ∷ ys) zero x p (q, a) = (p, a)
  All-set (y ∷ ys) (suc i) x p (q, a) = (q, All-set ys i x p a)

  All-append : (xs : List A) (x : A) → P x → All P xs → All P (xs ++ (x ∷ []))
  All-append [] x p a = (p, tt)
  All-append (y ∷ ys) x p (q, a) = (q, All-append ys x p a)

pub run_moves-append :
    {Key : Type 0} (svc : Service Key) (xs ys : List Move) (p : Port Key)
    → run_moves svc p (xs ++ ys) ≡ run_moves svc (run_moves svc p xs) ys
unfolding run_moves
run_moves-append svc [] ys p = refl
run_moves-append svc (x ∷ xs) ys p = run_moves-append svc xs ys (move svc p x)

module _ {Key : Type 0} (svc : Service Key) (keys : ℕ → Key) where
  pub record IsSound (p : Port Key) : Type 0 where
    pub ciphers : HasKeys svc keys p.ciphers
    pub salts : All (λ (h : Handler Key). HasSalt svc keys h.stage) p.handlers

  handler-Sound :
      (p : Port Key) (i : ℕ) (h : Handler Key)
      → IsSound p
      → at_index p.handlers i ≡ some h
      → Sound svc keys (view p h, h.stage)
  handler-Sound p i h s e = record {
    ciphers = s.ciphers;
    salt = All-at (λ (h : Handler Key). HasSalt svc keys h.stage) p.handlers i h e s.salts;
  }

  go-IsSound : (p : Port Key) (i : ℕ) → IsSound p → IsSound (move svc p (go i))
  unfolding move
  go-IsSound p i s = elim (Option-cases (at_index p.handlers i)) [
    | inl absent ↦ rw (absent, move) s
    | inr (h, e) ↦
        let t =
          (run_stage-Step svc keys h.remote (view p h) h.stage (handler-Sound p i h s e)).sound in
        rw (e, move)
          (record {
            ciphers = t.ciphers;
            salts =
                All-set (λ (h : Handler Key). HasSalt svc keys h.stage) p.handlers i _ t.salt
                  s.salts;
          })
  ]

  pub move-IsSound : (p : Port Key) (m : Move) → IsSound p → IsSound (move svc p m)
  unfolding move Cipher.update
  move-IsSound p (arrive remote conn) s = record {
    ciphers = s.ciphers;
    salts = All-append (λ (h : Handler Key). HasSalt svc keys h.stage) p.handlers _ tt s.salts;
  }
  move-IsSound p (reload elements) s = record { ciphers = λ e. s.ciphers e; salts = s.salts }
  move-IsSound p (go i) s = go-IsSound p i s

  pub run-IsSound : (ms : List Move) (p : Port Key) → IsSound p → IsSound (run_moves svc p ms)
  unfolding run_moves
  run-IsSound [] p s = s
  run-IsSound (m ∷ ms) p s = run-IsSound ms (move svc p m) (move-IsSound p m s)

  go-Guards :
      (p : Port Key) (i n k m h : ℕ)
      → IsSound p
      → asked_in svc p (go i) + k ≤ m
      → Guards n m h p.replay
      → Guards n k h (move svc p (go i)).replay
  unfolding move
  go-Guards p i n k m h s l g = elim (Option-cases (at_index p.handlers i)) [
    | inl absent ↦ rw (absent, move) (Guards-weaker (omega arith) g)
    | inr (x, e) ↦
        let l' : (if asks svc p.ciphers.store x.stage then 1 else 0) + k ≤ m = rw e at l in
        rw (e, move)
          (elim (run_stage-Step svc keys x.remote (view p x) x.stage
            (handler-Sound p i x s e)).effect [
              | inl kept ↦ rw kept (Guards-weaker (omega arith) g)
              | inr (asked, id, salt, added) ↦
                  let l'' : 1 + k ≤ m = rw asked at l' in
                  rw added (Guards-add id salt (Guards-weaker (omega arith) g))
            ])
  ]

  move-Guards :
      (p : Port Key) (a : Move) (n k m h : ℕ)
      → IsSound p
      → asked_in svc p a + k ≤ m
      → Guards n m h p.replay
      → Guards n k h (move svc p a).replay
  unfolding move
  move-Guards p (arrive remote conn) n k m h s l g = Guards-weaker (omega arith) g
  move-Guards p (reload elements) n k m h s l g = Guards-weaker (omega arith) g
  move-Guards p (go i) n k m h s l g = go-Guards p i n k m h s l g

  pub run-Guards :
      (ms : List Move) (p : Port Key) (n m h : ℕ)
      → IsSound p
      → replay_checks svc p ms ≤ m
      → Guards n m h p.replay
      → Guards n 0 h (run_moves svc p ms).replay
  unfolding run_moves replay_checks
  run-Guards [] p n m h s l g = Guards-weaker (omega arith) g
  run-Guards (a ∷ ms) p n m h s l g =
      run-Guards ms (move svc p a) n (replay_checks svc (move svc p a) ms) h (move-IsSound p a s)
        (omega arith) (move-Guards p a n (replay_checks svc (move svc p a) ms) m h s l g)

  pub acceptance-new :
      (p : Port Key) (i : ℕ) (id salt : List ℕ)
      → IsSound p
      → acceptance svc p i ≡ some (id, salt)
      → ((add p.replay id salt).0 ≡ true) × ((move svc p (go i)).replay ≡ (add p.replay id salt).1)
  unfolding acceptance move
  acceptance-new p i id salt s h = elim (Option-cases (at_index p.handlers i)) [
    | inl absent ↦ cc (rw absent at h)
    | inr (x, e) ↦
        rw (e, move)
          (accepted_by-new svc keys x.remote (view p x) x.stage id salt (handler-Sound p i x s e)
            (rw (e, acceptance) at h))
  ]

  move-Enabled :
      (p : Port Key) (a : Move) (n : ℕ)
      → IsSound p
      → Enabled n p.replay
      → Enabled n (move svc p a).replay
  unfolding move
  move-Enabled p (arrive remote conn) n s v = v
  move-Enabled p (reload elements) n s v = v
  move-Enabled p (go i) n s v = elim (Option-cases (at_index p.handlers i)) [
    | inl absent ↦ rw (absent, move) v
    | inr (x, e) ↦
        rw (e, move)
          (elim (run_stage-Step svc keys x.remote (view p x) x.stage
            (handler-Sound p i x s e)).effect [
              | inl kept ↦ rw kept v
              | inr (asked, id, salt, added) ↦ rw added (Enabled-add id salt v)
            ])
  ]

  pub run-Enabled :
      (ms : List Move) (p : Port Key) (n : ℕ)
      → IsSound p
      → Enabled n p.replay
      → Enabled n (run_moves svc p ms).replay
  unfolding run_moves
  run-Enabled [] p n s v = v
  run-Enabled (a ∷ ms) p n s v =
      run-Enabled ms (move svc p a) n (move-IsSound p a s) (move-Enabled p a n s v)
