-- ===== src/SlicePool/Tests.antt =====
-- Runs of the pool of internal/slicepool/slicepool.go.
use outline_ss_server.Prelude.{
  ℕ, ◌≡◌, refl, Option, none, some, List, [], ◌∷◌, ◌==◌, ==_self, if◌then◌else◌, arith,
}
use outline_ss_server.Prelude.Maps.{nat_eq, get, put, del, elem, Once}
use outline_ss_server.Tcp.State.{done, panic}
use outline_ss_server.SlicePool.{
  Slices, make_pool, acquire_call, release_call, PoolCall, pool_call, pool_calls, acquire, release,
  get_slice, put_slice, remove_first,
}
use outline_ss_server.SlicePool.Exclusive.{Picks, AllPick, Exclusive}
use outline_ss_server.SlicePool.Calls.{Proper, after_call, is_some, pool_calls-Exclusive}

abbrev first : List ℕ → Option ℕ
first free = elim free [ [] ↦ none | x ∷ xs ↦ some x ]

-- The third lazy slice gets the slice that the first has given back.
abbrev calls : List PoolCall
calls =
    acquire_call first 1
    ∷ acquire_call first 2
    ∷ release_call 1
    ∷ release_call 1
    ∷ acquire_call first 3
    ∷ []

reuse_test :
    pool_calls calls (make_pool 4)
    ≡ done (record {
      free = [];
      len = 4;
      size = λ h. if h == 1 then 4 else (if h == 0 then 4 else 4);
      next = 2;
      held = (2, 1) ∷ (3, 0) ∷ [];
    })
unfolding pool_calls pool_call acquire release get_slice put_slice remove_first make_pool get put
    del
reuse_test = refl

twice_test : pool_calls (acquire_call first 1 ∷ acquire_call first 1 ∷ []) (make_pool 4) ≡ panic
unfolding pool_calls pool_call acquire get_slice make_pool get put
twice_test = refl

new-Exclusive : Exclusive (make_pool 4)
unfolding make_pool get elem Once
new-Exclusive = record {
  one_holder = λ i j h e f. cc;
  not_free = λ i h e. cc;
  once = tt;
  held_below = λ i h e. cc;
  free_below = λ h e. cc;
}

first-Picks : (i : ℕ) → Picks (acquire_call first i)
unfolding Picks elem
first-Picks i [] h e = cc
first-Picks i (x ∷ xs) h e = let same : x ≡ h = (ground arith) in rw (same, ==_self h) refl

pool_calls-Exclusive_example :
    (s' : Slices) × (pool_calls calls (make_pool 4) ≡ done s') × Exclusive s'
unfolding AllPick Picks Proper after_call is_some make_pool get
pool_calls-Exclusive_example =
    pool_calls-Exclusive calls (make_pool 4) new-Exclusive
      (first-Picks 1, (first-Picks 2, (tt, (tt, (first-Picks 3, tt))))) (refl, (refl, (refl, tt)))
