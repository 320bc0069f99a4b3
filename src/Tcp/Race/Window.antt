-- ===== src/Tcp/Race/Window.antt =====
-- The connections of one port of service/tcp.go that are authenticated at the same time: what holds
-- in every interleaving.
use mathlib.Core.Path.{subst}
use outline_ss_server.Prelude.{ℕ, ◌≤◌, ◌≡◌, refl, some, List, [], ◌∷◌, ◌++◌, pos, ◌<◌}
use outline_ss_server.Cipher.{CipherList}
use outline_ss_server.Replay.{ReplayCache, pre_hash, new_replay_cache}
use outline_ss_server.Replay.Recall.{new-Fits}
use outline_ss_server.Replay.Guard.{Guards, Guards-starts, Guards-refuses, Enabled}
use outline_ss_server.Tcp.State.{Service}
use outline_ss_server.Tcp.Race.{Port, Move, go, move, run_moves, acceptance, replay_checks}
use outline_ss_server.Tcp.Race.Kept.{
  IsSound, move-IsSound, run-IsSound, run-Guards, acceptance-new, run-Enabled, run_moves-append,
}

module _ {Key : Type 0} (svc : Service Key) (keys : ℕ → Key) where
  -- Between two acceptances of one handshake more than n others are checked.
  window :
      (p : Port Key) (i j n : ℕ) (between : List Move) (id salt : List ℕ)
      → IsSound svc keys p
      → Enabled n p.replay
      → acceptance svc p i ≡ some (id, salt)
      → replay_checks svc (move svc p (go i)) between ≤ n
      → ¬ (acceptance svc (run_moves svc (move svc p (go i)) between) j ≡ some (id, salt))
  window p i j n between id salt s v first l second =
      let p₁ = move svc p (go i) in
      let s₁ = move-IsSound svc keys p (go i) s in
      let (new, added) = acceptance-new svc keys p i id salt s first in
      let starts : Guards n n (pre_hash id salt) p₁.replay =
        rw added (Guards-starts id salt v.held v.fits) in
      let last = run-Guards svc keys between p₁ n n (pre_hash id salt) s₁ l starts in
      let (again, _) =
        acceptance-new svc keys (run_moves svc p₁ between) j id salt
          (run-IsSound svc keys between p₁ s₁) second in
      cc (again, Guards-refuses id salt last)

module _ {Key : Type 0} where
  -- A port that has just been opened.
  abbrev pub opened : CipherList Key → ReplayCache → Port Key
  opened cl c = record { ciphers = cl; replay = some c; handlers = [] }

  -- On a port with a cache of positive capacity n, whatever connections arrive, however their
  -- authenticators interleave, and whatever lists of ciphers the port is given meanwhile: after one
  -- of them has accepted a handshake, and until more than n further handshakes have been put to the
  -- cache, none accepts a handshake with the same key ID and the same salt.
  pub race_accepted_once :
      (svc : Service Key) (cl : CipherList Key) (c : ReplayCache) (n i j : ℕ)
      (before between : List Move) (id salt : List ℕ)
      → new_replay_cache (pos n) ≡ some c
      → 0 < n
      → acceptance svc (run_moves svc (opened cl c) before) i ≡ some (id, salt)
      → replay_checks svc (run_moves svc (opened cl c) (before ++ (go i ∷ []))) between ≤ n
      → ¬ (
          acceptance svc (run_moves svc (opened cl c) (before ++ (go i ∷ between))) j
          ≡ some (id, salt))
  unfolding run_moves
  race_accepted_once svc cl c n i j before between id salt fresh positive first l second =
      let keys : ℕ → Key = λ e. (cl.store e).crypto_key in
      let s₀ : IsSound svc keys (opened cl c) = record { ciphers = λ e. refl; salts = tt } in
      let v₀ : Enabled n (opened cl c).replay = record {
        cache = c;
        held = refl;
        fits = new-Fits n c positive fresh;
      } in
      window svc keys (run_moves svc (opened cl c) before) i j n between id salt
        (run-IsSound svc keys before (opened cl c) s₀)
        (run-Enabled svc keys before (opened cl c) n s₀ v₀) first
        (subst (λ p. replay_checks svc p between ≤ n)
          (run_moves-append svc before (go i ∷ []) (opened cl c)) l)
        (subst (λ p. acceptance svc p j ≡ some (id, salt))
          (run_moves-append svc before (go i ∷ between) (opened cl c)) second)
