-- ===== src/Replay/Tests.antt =====
-- Runs of the replay cache of service/replay.go.

use outline_ss_server.Replay.{contains}
use outline_ss_server.Prelude.{ℕ, ◌≤◌, ◌≡◌, refl, true, false, some, List, [], ◌∷◌, arith, length}
use outline_ss_server.Replay.{ReplayCache, ℤ, pos, negsuc, new_replay_cache, add, add_all, pre_hash}
use outline_ss_server.Replay.Recall.{add_remembers}
use outline_ss_server.Replay.Bounds.{add_all-bounded}
use outline_ss_server.Replay.Negative.{add_negative}

abbrev fresh : ℤ → ReplayCache
fresh n = record { capacity = n; active = []; archive = [] }

abbrev key : List ℕ
key = 107 ∷ 49 ∷ []

abbrev salt : ℕ → List ℕ
salt n = n ∷ 2 ∷ 3 ∷ 4 ∷ 5 ∷ []

hash_test : pre_hash key (salt 1) ≡ 0x6f330304
unfolding pre_hash
hash_test = refl

abbrev three : List (List ℕ × List ℕ)
three = (key, salt 7) ∷ (key, salt 8) ∷ (key, salt 9) ∷ []

-- After three others a cache of capacity 2 has forgotten the handshake: the bound is exact.
forgotten :
    (add (add_all (some (fresh (pos 2))) ((key, salt 3) ∷ (key, salt 1) ∷ three)) key (salt 1)).0
    ≡ true
unfolding add_all add pre_hash
forgotten = refl

add_remembers_example :
    (add
      (add_all
        (add (add_all (some (fresh (pos 2))) three) key (salt 1)).1
        ((key, salt 7) ∷ (key, salt 5) ∷ []))
      key
      (salt 1)).0
    ≡ false
unfolding new_replay_cache
add_remembers_example =
    add_remembers 2 (fresh (pos 2)) three ((key, salt 7) ∷ (key, salt 5) ∷ []) key (salt 1)
      (omega arith) refl (omega arith)

add_all-bounded_example :
    (c' : ReplayCache) × (add_all (some (fresh (pos 2))) three ≡ some c')
    × (length c'.active ≤ 2)
    × (length c'.archive ≤ 2)
unfolding new_replay_cache
add_all-bounded_example = add_all-bounded 2 (fresh (pos 2)) three (omega arith) refl

add_negative_example :
    (c : ReplayCache) × (new_replay_cache (negsuc 0) ≡ some c)
    × ((before after : List (List ℕ × List ℕ)) (id salt : List ℕ)
        → (c' : ReplayCache) × (add_all (add (add_all (some c) before) id salt).1 after ≡ some c')
          × (c'.archive ≡ [])
          × (contains c'.active (pre_hash id salt) ≡ true)
          × ((add (some c') id salt).0 ≡ false))
add_negative_example = add_negative 0
