-- ===== src/Tcp/Relay.antt =====
-- The two goroutines of `proxyConnection` of service/tcp.go, and every way in which they interleave.
use outline_ss_server.Prelude.{
  ℕ, ◌≡◌, refl, Bool, true, false, Option, none, some, List, [], ◌∷◌, ◌==◌, if◌then◌else◌,
}
use outline_ss_server.Net.GoError.{GoError}

pub data Action : Type 0 where
  copy_to_target drain_client close_read_client close_write_target send_result : Action
  copy_to_client close_write_client close_read_target receive_result : Action
  exchange close_target : Action

-- The goroutine that copies from the client, by the error that its copy ends with.
unfoldable pub from_client_actions : Option GoError → List Action
from_client_actions none =
    copy_to_target ∷ close_read_client ∷ close_write_target ∷ send_result ∷ []
from_client_actions (some e) =
    copy_to_target ∷ drain_client ∷ close_read_client ∷ close_write_target ∷ send_result ∷ []

-- The handler's own goroutine; `close_target` is the deferred call.
unfoldable pub from_target_actions : List Action
from_target_actions =
    copy_to_client ∷ close_write_client ∷ close_read_target ∷ receive_result ∷ close_target ∷ []

-- A number for each action.
abbrev code : Action → ℕ
code copy_to_target = 0
code drain_client = 1
code close_read_client = 2
code close_write_target = 3
code send_result = 4
code copy_to_client = 5
code close_write_client = 6
code close_read_target = 7
code receive_result = 8
code exchange = 9
code close_target = 10

unfoldable pub is : Action → Action → Bool
unfolding code
is a b = code a == code b

-- The channel has no buffer: a send and a receive are one step of both goroutines.
pub data Interleaves : List Action → List Action → List Action → Type 0 where
  stop : Interleaves [] [] []
  left :
      {xs ys zs : List Action}
      → (a : Action) → is a send_result ≡ false
      → Interleaves xs ys zs
      → Interleaves (a ∷ xs) ys (a ∷ zs)
  right :
      {xs ys zs : List Action}
      → (a : Action) → is a receive_result ≡ false
      → Interleaves xs ys zs
      → Interleaves xs (a ∷ ys) (a ∷ zs)
  meet :
      {xs ys zs : List Action}
      → Interleaves xs ys zs
      → Interleaves (send_result ∷ xs) (receive_result ∷ ys) (exchange ∷ zs)

pub occurs : Action → List Action → Bool
occurs a [] = false
occurs a (x ∷ xs) = if is x a then true else occurs a xs

-- The first `a` stands before the first `b`, and both are there.
pub before : Action → Action → List Action → Bool
unfolding occurs
before a b [] = false
before a b (x ∷ xs) = if is x a then occurs b xs else if is x b then false else before a b xs

-- An action that is no part of the exchange.
record Plain (a : Action) : Type 0 where
  sends : is send_result a ≡ false
  receives : is receive_result a ≡ false
  exchanges : is exchange a ≡ false

none-of : (b c : Bool) → (if b then true else c) ≡ false → (b ≡ false) × (c ≡ false)
none-of true c h = cc
none-of false c h = (refl, h)

occurs-left :
    {xs ys zs : List Action} (a : Action)
    → Plain a
    → Interleaves xs ys zs
    → occurs a ys ≡ false
    → occurs a zs ≡ occurs a xs
unfolding occurs
occurs-left a p stop h = refl
occurs-left a p (left x n s) h = rw (occurs-left a p s h) refl
occurs-left a p (right y n s) h =
    let (i, rest) = none-of (is y a) _ h in rw i (occurs-left a p s rest)
occurs-left a p (meet s) h =
    let (i, rest) = none-of (is receive_result a) _ h in
    rw (p.exchanges, p.sends) (occurs-left a p s rest)

before-left :
    {xs ys zs : List Action} (a b : Action)
    → Plain a
    → Plain b
    → Interleaves xs ys zs
    → occurs a ys ≡ false
    → occurs b ys ≡ false
    → before a b zs ≡ before a b xs
unfolding before occurs
before-left a b p q stop h k = refl
before-left a b p q (left x n s) h k = rw (before-left a b p q s h k, occurs-left b q s k) refl
before-left a b p q (right y n s) h k =
    let (i, h') = none-of (is y a) _ h in
    let (j, k') = none-of (is y b) _ k in rw (i, j) (before-left a b p q s h' k')
before-left a b p q (meet s) h k =
    let (i, h') = none-of (is receive_result a) _ h in
    let (j, k') = none-of (is receive_result b) _ k in
    rw (p.exchanges, p.sends, q.exchanges, q.sends) (before-left a b p q s h' k')

drain-Plain : Plain drain_client
unfolding is
drain-Plain = record { sends = refl; receives = refl; exchanges = refl }

fin-Plain : Plain close_write_target
unfolding is
fin-Plain = record { sends = refl; receives = refl; exchanges = refl }

-- The FIN to the target is sent only after the client's stream has been drained: for every error
-- of the copy from the client and every interleaving of the two goroutines.
pub drain_before_fin :
    (e : GoError) (zs : List Action)
    → Interleaves (from_client_actions (some e)) from_target_actions zs
    → before drain_client close_write_target zs ≡ true
unfolding from_client_actions from_target_actions before occurs is
drain_before_fin e zs s =
    before-left drain_client close_write_target drain-Plain fin-Plain s refl refl
