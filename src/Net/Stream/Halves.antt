-- ===== src/Net/Stream/Halves.antt =====
-- What `Relay` of net/stream.go does, whatever the order of its two goroutines.
use outline_ss_server.Prelude.{◌≡◌, refl, ap, ◌∙◌, Option, none, some, List, [], ◌∷◌, ◌++◌}
use outline_ss_server.Net.GoError.{GoError}
use outline_ss_server.Net.Stream.{
  Side, left_conn, right_conn, Conns, Copied, Duplex, Action, copying, closing_write, closing_read,
  copy_one_way, Both, Merges, stop, on_left, on_right, read_half, write_half, with_read, with_write,
  with_result, act, run_merged, relay, first_error, result_of, other_side,
}

-- What one direction works on: the half that it reads from, the half that it writes to, and its result.
record Direction (Half : Type 0) : Type 0 where
  source : Half
  sink : Half
  result : Option Copied

module _ {Half : Type 0} where
  abbrev into_left : Both Half → Direction Half
  into_left b = record {
    source = b.conns.right_read;
    sink = b.conns.left_write;
    result = b.to_left;
  }

  abbrev into_right : Both Half → Direction Half
  into_right b = record {
    source = b.conns.left_read;
    sink = b.conns.right_write;
    result = b.to_right;
  }

-- The errors of the two copies, in the order of their precedence, and the first of them.
abbrev pub errors_of : Option GoError → List GoError
errors_of none = []
errors_of (some e) = e ∷ []

abbrev pub head : List GoError → Option GoError
head [] = none
head (e ∷ es) = some e

first_error-head : (o p : Option GoError) → first_error o p ≡ head (errors_of o ++ errors_of p)
unfolding first_error
first_error-head none none = refl
first_error-head none (some e) = refl
first_error-head (some e) o = refl

result_of-head :
    (l r : Copied)
    → result_of (some l) (some r) ≡ some (l.n, r.n, head (errors_of l.err ++ errors_of r.err))
unfolding result_of
result_of-head l r = ap (λ (e : Option GoError). some (l.n, r.n, e)) (first_error-head l.err r.err)

module _ {Half : Type 0} (io : Duplex Half) where
  -- One direction alone.
  abbrev act_alone : Side → Action → Direction Half → Direction Half
  unfolding other_side
  act_alone dst copying d =
      let (copied, r, w) = io.copy dst d.source d.sink in
      record { source = r; sink = w; result = some copied }
  act_alone dst closing_write d = record d { sink = io.close_write dst d.sink }
  act_alone dst closing_read d = record d { source = io.close_read (other_side dst) d.source }

  abbrev run_alone : Side → List Action → Direction Half → Direction Half
  run_alone dst [] d = d
  run_alone dst (a ∷ rest) d = run_alone dst rest (act_alone dst a d)

  act-left :
      (a : Action) (b : Both Half)
      → (into_left (act io left_conn a b) ≡ act_alone left_conn a (into_left b))
        × (into_right (act io left_conn a b) ≡ into_right b)
  unfolding act other_side read_half write_half with_read with_write with_result
  act-left copying b = (refl, refl)
  act-left closing_write b = (refl, refl)
  act-left closing_read b = (refl, refl)

  act-right :
      (a : Action) (b : Both Half)
      → (into_right (act io right_conn a b) ≡ act_alone right_conn a (into_right b))
        × (into_left (act io right_conn a b) ≡ into_left b)
  unfolding act other_side read_half write_half with_read with_write with_result
  act-right copying b = (refl, refl)
  act-right closing_write b = (refl, refl)
  act-right closing_read b = (refl, refl)

  run_merged-apart :
      {xs ys : List Action} {zs : List (Side × Action)} (b : Both Half)
      → Merges xs ys zs
      → (into_left (run_merged io zs b) ≡ run_alone left_conn xs (into_left b))
        × (into_right (run_merged io zs b) ≡ run_alone right_conn ys (into_right b))
  unfolding run_merged
  run_merged-apart b stop = (refl, refl)
  run_merged-apart {xs = _ ∷ xs} {ys = ys} b (on_left a m) =
      let (l, r) = run_merged-apart _ m in
      let (own, other) = act-left a b in
      (l ∙ ap (run_alone left_conn xs) own, r ∙ ap (run_alone right_conn ys) other)
  run_merged-apart {xs = xs} {ys = _ ∷ ys} b (on_right a m) =
      let (l, r) = run_merged-apart _ m in
      let (own, other) = act-right a b in
      (l ∙ ap (run_alone left_conn xs) other, r ∙ ap (run_alone right_conn ys) own)

  -- In every order of the calls of its two goroutines, the relay returns the bytes that each direction
  -- copied; the error is that of the copy to the left connection if this copy failed, else that of the
  -- copy to the right one if this failed, and else there is none. Whether or not the copies
  -- failed, the write half of each connection is closed after the copy to it and the read half after
  -- the copy from it, and no call of one direction changes a half that the other works on.
  pub relay_lem :
      (order : List (Side × Action)) (conns : Conns Half)
      → Merges copy_one_way copy_one_way order
      → let l = io.copy left_conn conns.right_read conns.left_write in
        let r = io.copy right_conn conns.left_read conns.right_write in
        let result = relay io order conns in
        (result.0 ≡ some (l.0.n, r.0.n, head (errors_of l.0.err ++ errors_of r.0.err)))
        × (result.1.conns ≡ record {
          left_read = io.close_read left_conn r.1;
          left_write = io.close_write left_conn l.2;
          right_read = io.close_read right_conn l.1;
          right_write = io.close_write right_conn r.2;
        })
  unfolding relay copy_one_way other_side
  relay_lem order conns m =
      let (l, r) = run_merged-apart (record { conns = conns; to_left = none; to_right = none }) m in
      (
        rw (ap (λ (d : Direction Half). d.result) l, ap (λ (d : Direction Half). d.result) r)
            (result_of-head (io.copy left_conn conns.right_read conns.left_write).0
              (io.copy right_conn conns.left_read conns.right_write).0),
        λ i. record {
          left_read = (r i).source;
          left_write = (l i).sink;
          right_read = (l i).source;
          right_write = (r i).sink;
        },
      )
