-- ===== src/Replay.antt =====
-- service/replay.go: the cache of handshake salts. A `map[uint32]empty` is a list of its keys;
-- the mutex makes each `Add` one step.
pub mod Recall
pub mod Guard
pub mod Bounds
pub mod Negative
mod Tests
pub use outline_ss_server.Prelude.{ℤ, pos, negsuc}
use outline_ss_server.Prelude.{
  ℕ, zero, suc, ◌+◌, ◌*◌, Bool, true, false, not, Option, none, some, List, [], ◌∷◌, bit_and,
  bit_xor, ltb, ◌==◌, if◌then◌else◌, length, set, get_or,
}

abbrev pub max_capacity : ℕ
max_capacity = 20_000

pub record ReplayCache : Type 0 where
  pub capacity : ℤ
  pub active : List ℕ
  pub archive : List ℕ

exceeds_max : ℤ → Bool
exceeds_max (pos n) = ltb max_capacity n
exceeds_max (negsuc n) = false

-- `none` is the panic. `make` with a size hint gives an empty map; `archive` is nil, which reads
-- as an empty map.
unfoldable pub new_replay_cache : ℤ → Option ReplayCache
unfolding exceeds_max
new_replay_cache capacity =
    if exceeds_max capacity
    then none
    else some (record { capacity = capacity; active = []; archive = [] })

-- `_, ok := m[hash]`
unfoldable pub contains : List ℕ → ℕ → Bool
contains [] h = false
contains (x ∷ xs) h = if x == h then true else contains xs h

-- `m[hash] = empty{}`
unfoldable pub insert : List ℕ → ℕ → List ℕ
insert m h = if contains m h then m else h ∷ m

-- `buf[i&0x3] ^= v` for each byte, from index `i`.
unfoldable pub mix : List ℕ → ℕ → List ℕ → List ℕ
mix buf i [] = buf
mix buf i (v ∷ vs) =
    let j = bit_and i 0x3 in mix (set buf j (bit_xor (get_or buf j 0) v)) (i + 1) vs

-- `binary.BigEndian.Uint32`
unfoldable pub big_endian : List ℕ → ℕ
big_endian buf =
    get_or buf 0 0 * 16777216 + get_or buf 1 0 * 65536 + get_or buf 2 0 * 256 + get_or buf 3 0

unfoldable pub pre_hash : List ℕ → List ℕ → ℕ
unfolding mix big_endian
pre_hash id salt = big_endian (mix (mix (0 ∷ 0 ∷ 0 ∷ 0 ∷ []) 0 id) 0 salt)

unfoldable pub is_zero : ℤ → Bool
is_zero (pos n) = n == 0
is_zero (negsuc n) = false

-- `len(c.active) == c.capacity`
unfoldable pub is_full : ReplayCache → Bool
is_full c = elim c.capacity [ pos n ↦ length c.active == n | negsuc n ↦ false ]

-- Discard the archive and move active to archive.
unfoldable pub rotate : ReplayCache → ReplayCache
unfolding is_full
rotate c = if is_full c then record c { active = []; archive = c.active } else c

-- The locked part of `Add`.
unfoldable pub add_hash : ReplayCache → ℕ → Bool × ReplayCache
unfolding contains insert rotate
add_hash c h =
    if contains c.active h
    then (false, c)
    else (let in_archive = contains c.archive h in
        let r = rotate c in (not in_archive, record r { active = insert r.active h }))

-- `Add` on a pointer, nil included.
unfoldable pub add : Option ReplayCache → List ℕ → List ℕ → Bool × Option ReplayCache
unfolding add_hash is_zero
add none id salt = (true, none)
add (some c) id salt =
    if is_zero c.capacity
    then (true, some c)
    else (let (fresh, c') = add_hash c (pre_hash id salt) in (fresh, some c'))

-- The cache after a sequence of handshakes (key ID and salt).
pub add_all : Option ReplayCache → List (List ℕ × List ℕ) → Option ReplayCache
unfolding add
add_all c [] = c
add_all c ((id, salt) ∷ hs) = add_all (add c id salt).1 hs
