-- ===== src/SlicePool.antt =====
-- internal/slicepool/slicepool.go: a pool of slices, and the lazy slices that hold 0 or 1 of them. A slice
-- is known by a number; a new one is made with a number that no other has had.
pub mod Exclusive
pub mod Calls
mod Tests
use outline_ss_server.Prelude.{
  ℕ, ◌+◌, Bool, true, false, ◌||◌, not, Option, none, some, List, [], ◌∷◌, ◌==◌, if◌then◌else◌,
}
use outline_ss_server.Prelude.Maps.{nat_eq, get, put, del}
use outline_ss_server.Tcp.State.{Outcome, done, panic}

-- The slices in the `sync.Pool`, the length of a slice (its capacity is the same), the number of the next
-- new one, and the slices that are held, by the number of the lazy slice.
pub record Slices : Type 0 where
  pub free : List ℕ
  pub len : ℕ
  pub size : ℕ → ℕ
  pub next : ℕ
  pub held : List (ℕ × ℕ)

unfoldable pub make_pool : ℕ → Slices
make_pool slice_len = record {
  free = [];
  len = slice_len;
  size = λ h. slice_len;
  next = 0;
  held = [];
}

unfoldable pub remove_first : ℕ → List ℕ → List ℕ
remove_first h [] = []
remove_first h (x ∷ xs) = if x == h then xs else x ∷ remove_first h xs

-- `sync.Pool.Get`: one of the slices in the pool, as the pool picks, or a new one.
unfoldable pub get_slice : (List ℕ → Option ℕ) → Slices → ℕ × Slices
unfolding remove_first
get_slice pick s = elim (pick s.free) [
  | some h ↦ (h, record s { free = remove_first h s.free })
  | none ↦
      (s.next, record s { size = λ h. if h == s.next then s.len else s.size h; next = s.next + 1 })
]

unfoldable pub put_slice : ℕ → Slices → Outcome Slices
put_slice h s = if not (s.size h == s.len) then panic else done (record s { free = h ∷ s.free })

unfoldable pub acquire : (List ℕ → Option ℕ) → ℕ → Slices → Outcome Slices
unfolding get_slice
acquire pick i s = elim (get i s.held) [
  | some h ↦ panic
  | none ↦ let (h, s') = get_slice pick s in done (record s' { held = put i h s'.held })
]

unfoldable pub release : ℕ → Slices → Outcome Slices
unfolding put_slice
release i s = elim (get i s.held) [
  | none ↦ done s
  | some h ↦ elim (put_slice h s) [
    | panic ↦ panic
    | done s' ↦ done (record s' { held = del i s'.held })
  ]
]

-- A call on a lazy slice; for `Acquire`, with what the pool picks.
pub data PoolCall : Type 0 where
  acquire_call : (List ℕ → Option ℕ) → ℕ → PoolCall
  release_call : ℕ → PoolCall

unfoldable pub pool_call : PoolCall → Slices → Outcome Slices
unfolding acquire release
pool_call (acquire_call pick i) = acquire pick i
pool_call (release_call i) = release i

-- Calls up to the first panic.
unfoldable pub pool_calls : List PoolCall → Slices → Outcome Slices
unfolding pool_call
pool_calls [] s = done s
pool_calls (c ∷ cs) s = elim (pool_call c s) [ panic ↦ panic | done s' ↦ pool_calls cs s' ]
