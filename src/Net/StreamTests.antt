-- ===== src/Net/StreamTests.antt =====
-- A run of `Relay` of net/stream.go.
use outline_ss_server.Prelude.{ℕ, ◌≡◌, none, some, List, [], ◌∷◌}
use outline_ss_server.Net.GoError.{plain}
use outline_ss_server.Net.Stream.{
  Side, left_conn, right_conn, Conns, Duplex, Copied, Action, copying, closing_write, closing_read,
  copy_one_way, Merges, stop, on_left, on_right, relay,
}
use outline_ss_server.Net.Stream.Halves.{relay_lem}

-- The calls on a half, newest first: 1 for a copy, 2 for CloseWrite, 3 for CloseRead. The copy to the
-- left connection moves 5 bytes; that to the right one 7, and ends with an error.
abbrev bytes_to : Side → Copied
bytes_to left_conn = record { n = 5; err = none }
bytes_to right_conn = record { n = 7; err = some (plain "connection reset") }

abbrev calls : Duplex (List ℕ)
calls = record {
  copy = λ dst r w. (bytes_to dst, 1 ∷ r, 1 ∷ w);
  close_write = λ dst h. 2 ∷ h;
  close_read = λ src h. 3 ∷ h;
}

abbrev conns : Conns (List ℕ)
conns = record { left_read = []; left_write = []; right_read = []; right_write = [] }

abbrev order : List (Side × Action)
order =
    (right_conn, copying)
    ∷ (left_conn, copying)
    ∷ (right_conn, closing_write)
    ∷ (right_conn, closing_read)
    ∷ (left_conn, closing_write)
    ∷ (left_conn, closing_read)
    ∷ []

order-Merges : Merges copy_one_way copy_one_way order
unfolding copy_one_way
order-Merges = on_right copying (
    on_left copying (
      on_right closing_write
        (on_right closing_read (on_left closing_write (on_left closing_read stop)))))

relay_lem_example :
    ((relay calls order conns).0 ≡ some (5, 7, some (plain "connection reset")))
    × ((relay calls order conns).1.conns ≡ record {
      left_read = 3 ∷ 1 ∷ [];
      left_write = 2 ∷ 1 ∷ [];
      right_read = 3 ∷ 1 ∷ [];
      right_write = 2 ∷ 1 ∷ [];
    })
relay_lem_example = relay_lem calls order conns order-Merges
