-- ===== src/Net/Stream.antt =====
-- net/stream.go: `Relay`, which copies between two connections in both directions at once.
pub mod Halves
use outline_ss_server.Prelude.{ℕ, Option, none, some, List, [], ◌∷◌}
use outline_ss_server.Net.GoError.{GoError}

-- The two connections of a relay.
pub data Side : Type 0 where
  left_conn right_conn : Side

-- What a copy ended with: the bytes copied, and the error, if any.
pub record Copied : Type 0 where
  pub n : ℕ
  pub err : Option GoError

-- The two connections, each with a half to read from and one to write to.
pub record Conns (Half : Type 0) : Type 0 where
  pub left_read : Half
  pub left_write : Half
  pub right_read : Half
  pub right_write : Half

-- `io.Copy` takes the read half of the connection that it copies from and the write half of the other
-- one, `CloseWrite` and `CloseRead` the half that they close. They are parameters, by the connection
-- that is written to or closed.
pub record Duplex (Half : Type 0) : Type 0 where
  pub copy : Side → Half → Half → Copied × Half × Half
  pub close_write : Side → Half → Half
  pub close_read : Side → Half → Half

-- The calls of `copyOneWay`, and those of its caller with its result.
pub data Action : Type 0 where
  copying closing_write closing_read : Action

unfoldable pub copy_one_way : List Action
copy_one_way = copying ∷ closing_write ∷ closing_read ∷ []

-- A relay: its connections, and the results of the copies that have ended, by the connection written to.
pub record Both (Half : Type 0) : Type 0 where
  pub conns : Conns Half
  pub to_left : Option Copied
  pub to_right : Option Copied

-- A call of the goroutine that writes to the left connection, or to the right one.
pub data Merges : List Action → List Action → List (Side × Action) → Type 0 where
  stop : Merges [] [] []
  on_left :
      {xs ys : List Action} {zs : List (Side × Action)}
      → (a : Action) → Merges xs ys zs
      → Merges (a ∷ xs) ys ((left_conn, a) ∷ zs)
  on_right :
      {xs ys : List Action} {zs : List (Side × Action)}
      → (a : Action) → Merges xs ys zs
      → Merges xs (a ∷ ys) ((right_conn, a) ∷ zs)

unfoldable pub other_side : Side → Side
other_side left_conn = right_conn
other_side right_conn = left_conn

-- `if err == nil { err = rs.Err }`
unfoldable pub first_error : Option GoError → Option GoError → Option GoError
first_error none e = e
first_error (some e) f = some e

module _ {Half : Type 0} where
  unfoldable pub read_half : Side → Conns Half → Half
  read_half left_conn c = c.left_read
  read_half right_conn c = c.right_read

  unfoldable pub write_half : Side → Conns Half → Half
  write_half left_conn c = c.left_write
  write_half right_conn c = c.right_write

  unfoldable pub with_read : Side → Half → Conns Half → Conns Half
  with_read left_conn h c = record c { left_read = h }
  with_read right_conn h c = record c { right_read = h }

  unfoldable pub with_write : Side → Half → Conns Half → Conns Half
  with_write left_conn h c = record c { left_write = h }
  with_write right_conn h c = record c { right_write = h }

  unfoldable pub with_result : Side → Copied → Both Half → Both Half
  with_result left_conn r b = record b { to_left = some r }
  with_result right_conn r b = record b { to_right = some r }

module _ {Half : Type 0} (io : Duplex Half) where
  -- A call of the `copyOneWay` that writes to a connection; it reads from the other one.
  unfoldable pub act : Side → Action → Both Half → Both Half
  unfolding other_side
  act dst copying b =
      let src = other_side dst in
      let (copied, r, w) = io.copy dst (read_half src b.conns) (write_half dst b.conns) in
      with_result dst copied (record b { conns = with_write dst w (with_read src r b.conns) })
  act dst closing_write b = record b {
    conns = with_write dst (io.close_write dst (write_half dst b.conns)) b.conns;
  }
  act dst closing_read b =
      let src = other_side dst in
      record b { conns = with_read src (io.close_read src (read_half src b.conns)) b.conns }

  unfoldable pub run_merged : List (Side × Action) → Both Half → Both Half
  run_merged [] b = b
  run_merged ((dst, a) ∷ zs) b = run_merged zs (act dst a b)

-- The exchange on the channel, once both directions are done: the bytes from right to left, those
-- from left to right, and the error.
unfoldable pub result_of : Option Copied → Option Copied → Option (ℕ × ℕ × Option GoError)
unfolding first_error
result_of none r = none
result_of (some l) none = none
result_of (some l) (some r) = some (l.n, r.n, first_error l.err r.err)

module _ {Half : Type 0} (io : Duplex Half) where
  -- `Relay`, in an order of the calls of its two goroutines.
  unfoldable pub relay :
      List (Side × Action) → Conns Half → Option (ℕ × ℕ × Option GoError) × Both Half
  unfolding run_merged result_of
  relay order conns =
      let b = run_merged io order (record { conns = conns; to_left = none; to_right = none }) in
      (result_of b.to_left b.to_right, b)
