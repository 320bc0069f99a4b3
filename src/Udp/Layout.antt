-- ===== src/Udp/Layout.antt =====
-- service/udp.go: how `timedCopy` lays out a packet in its buffer.
use outline_ss_server.Prelude.{
  ℕ, zero, suc, ◌+◌, ◌-◌, ◌≤◌, ◌≡◌, refl, ap, sym, ◌∙◌, true, ◌&&◌, List, [], ◌∷◌, ◌++◌, leb,
  length, take, drop, replicate, length-append, length-take, length-drop, take-append, drop-append,
  arith,
}
use mathlib.Core.List.{append_assoc}
use outline_ss_server.Cipher.{Shadowsocks}
use outline_ss_server.Tcp.State.{done}
use outline_ss_server.Udp.Copy.{ClientNet, slice, bound, write_at, body_start, send, pack_turn}

pub take_all : (n : ℕ) (xs : List ℕ) → length xs ≤ n → take n xs ≡ xs
take_all zero [] h = refl
take_all zero (x ∷ xs) h = absurd (omega arith)
take_all (suc n) [] h = refl
take_all (suc n) (x ∷ xs) h = ap (◌∷◌ x) (take_all n xs (omega arith))

pub length-replicate : (n x : ℕ) → length (replicate n x) ≡ n
length-replicate zero x = refl
length-replicate (suc n) x = omega (arith, length-replicate n x)

pub length-write_at : (s : ℕ) (bs b : List ℕ) → s ≤ length b → length (write_at s bs b) ≡ length b
unfolding write_at
length-write_at s bs b h =
    length-append (take s b) _
    ∙ (rw
        (
          length-append (take (length b - s) bs) (drop (s + length bs) b),
          length-take s b,
          length-take (length b - s) bs,
          length-drop (s + length bs) b,
        )
        (omega arith))

pub slice_inside :
    (lo hi : ℕ) (b : List ℕ)
    → lo ≤ hi
    → hi ≤ length b
    → slice lo hi b ≡ done (take (hi - lo) (drop lo b))
unfolding slice
slice_inside lo hi b h k =
    let t : (leb lo hi && leb hi (length b)) ≡ true = (ground arith) in rw t refl

bound_inside : (a b : ℕ) → b ≤ a → bound a b ≡ done (a - b)
unfolding bound
bound_inside a b h = let t : leb b a ≡ true = (ground arith) in rw t refl

-- What stands behind a place after a write there.
drop-write_at :
    (s : ℕ) (bs b : List ℕ)
    → s + length bs ≤ length b
    → drop s (write_at s bs b) ≡ bs ++ drop (s + length bs) b
unfolding write_at
drop-write_at s bs b h =
    drop-append s (take s b) _ (length-take s b ∙ (omega arith))
    ∙ ap (λ xs. xs ++ drop (s + length bs) b) (take_all (length b - s) bs (omega arith))

-- An address that is written in front of a body stands before it without a gap.
framed :
    (s : ℕ) (src body b : List ℕ)
    → length src ≤ s
    → s + length body ≤ length b
    → take
        (s + length body - (s - length src))
        (drop (s - length src) (write_at (s - length src) src (write_at s body b)))
      ≡ src ++ body
framed s src body b h k =
    let b₁ = write_at s body b in
    let len : length b₁ ≡ length b = length-write_at s body b (omega arith) in
    let meet : s - length src + length src ≡ s = (omega arith) in
    let shown : drop (s - length src) (write_at (s - length src) src b₁)
        ≡ src ++ (body ++ drop (s + length body) b) =
      drop-write_at (s - length src) src b₁ (omega arith)
      ∙ ap (λ i. src ++ drop i b₁) meet
      ∙ ap (λ xs. src ++ xs) (drop-write_at s body b k) in
    ap (take (s + length body - (s - length src))) shown
    ∙ ap (take (s + length body - (s - length src)))
        (sym (append_assoc src body (drop (s + length body) b)))
    ∙ take-append _ (src ++ body) _ (length-append src body ∙ (omega arith))

module _ {Key : Type 0} (ss : Shadowsocks Key) (net : ClientNet Key) where
  -- A body in its place is packed with its address in front, into all of the slice behind the padding.
  pub pack_turn_lem :
      (key : Key) (src body b : List ℕ)
      → length src ≤ net.max_addr_len
      → body_start ss net key + length body ≤ length b
      → (left : List ℕ) × (length left ≡ length b)
        × (pack_turn ss net key (length body) src (write_at (body_start ss net key) body b)
            ≡ done (
              send ss net
                  (length body)
                  (net.pack (length b - (net.max_addr_len - length src)) (src ++ body) key),
              left,
            ))
  unfolding pack_turn body_start
  pack_turn_lem key src body b h k =
      let s = ss.salt_size key + net.max_addr_len in
      let b₁ = write_at s body b in
      let len₁ : length b₁ ≡ length b = length-write_at s body b (omega arith) in
      let start : ℕ = s - length src in
      let b₂ = write_at start src b₁ in
      let len₂ : length b₂ ≡ length b = length-write_at start src b₁ (omega arith) ∙ len₁ in
      let salt : ℕ = start - ss.salt_size key in
      let pad : salt ≡ net.max_addr_len - length src = (omega arith) in
      let packed : List ℕ = take (length b₂ - salt) (drop salt b₂) in
      let room : length packed ≡ length b - (net.max_addr_len - length src) =
        length-take (length b₂ - salt) (drop salt b₂) ∙ (rw (length-drop salt b₂) (omega arith)) in
      (
        write_at salt (net.pack_leaves packed (src ++ body) key) b₂,
        length-write_at salt _ b₂ (omega arith) ∙ len₂,
        rw
            (
              bound_inside s (length src) (omega arith),
              slice_inside start (s + length body) b₁ (omega arith) (omega arith),
              slice_inside start (s + length body) b₂ (omega arith) (omega arith),
              bound_inside start (ss.salt_size key) (omega arith),
              slice_inside salt (length b₂) b₂ (omega arith) (omega arith),
              framed s src body b (omega arith) k,
              room,
            )
            refl,
      )
