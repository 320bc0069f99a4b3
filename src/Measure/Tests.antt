-- ===== src/Measure/Tests.antt =====
-- Runs of the measured connections of service/metrics/metrics.go.
use mathlib.Core.Path.{subst}
use native.Mathlib.Nat.{add-zero}
use outline_ss_server.Prelude.{
  ℕ, ◌+◌, ◌<◌, ◌≡◌, refl, ap, ◌∙◌, Option, none, some, List, [], ◌∷◌, ◌++◌, length, arith,
}
use outline_ss_server.Net.GoError.{GoError}
use outline_ss_server.Tcp.State.{no_bytes}
use outline_ss_server.Measure.Copy.{Ended, more, eof, Copying, Writer, io_copy}
use outline_ss_server.Measure.{
  to_client_proxy, to_proxy_target, to_target_proxy, to_proxy_client, add_to, Process, StreamConn,
  MeasuredConn, measure_conn, own_read, own_write, measured_reader, measured_writer,
  measured_write_to, measured_write, count_copy,
}
use outline_ss_server.Measure.Int64.{IsInt64}
use outline_ss_server.Measure.Fast.{Pumps, IsDocumented}
use outline_ss_server.Measure.Counts.{io_copy-counts}
use outline_ss_server.Measure.Returns.{Ends, io_copy-returns}

-- What the client sends, in the pieces in which it arrives, and what the target has got.
abbrev Wires : Type 0
Wires = List (List ℕ) × List ℕ

abbrev receive : ℕ → Wires → (List ℕ × Ended) × Wires
receive b (bs ∷ more_bytes, out) = ((bs, more), (more_bytes, out))
receive b ([], out) = (([], eof), ([], out))

abbrev deliver : List ℕ → Wires → (ℕ × Option GoError) × Wires
deliver bs (incoming, out) = ((length bs, none), (incoming, out ++ bs))

abbrev plain_conn : StreamConn Wires
plain_conn = record { read = receive; write = deliver; read_from = none; write_to = none }

-- A `WriteTo` that passes one piece on.
abbrev pass_one : Writer (Process Wires) → Copying (Process Wires)
pass_one w p = let ((bs, _), p₁) = own_read plain_conn 100 p in some (w.write bs p₁)

abbrev fast_conn : StreamConn Wires
fast_conn = record plain_conn { write_to = some pass_one }

abbrev start : Process Wires
start = record { outside = ((1 ∷ 2 ∷ 3 ∷ []) ∷ (4 ∷ []) ∷ [], []); metrics = no_bytes }

abbrev client : MeasuredConn Wires
client = measure_conn plain_conn to_proxy_client to_client_proxy

abbrev target : MeasuredConn Wires
target = measure_conn plain_conn to_proxy_target to_target_proxy

start-IsInt64 : IsInt64 no_bytes
start-IsInt64 = record {
  client_proxy = omega arith;
  proxy_target = omega arith;
  target_proxy = omega arith;
  proxy_client = omega arith;
}

receive-Ends : Ends receive deliver (λ o. length o.0)
receive-Ends = record { reads = λ b s h. receive_less b s h; writes = λ bs s. omega arith }
  where
    receive_less :
        (b : ℕ) (s : Wires) → (receive b s).0.1 ≡ more → length (receive b s).1.0 < length s.0
    receive_less b ([], out) h = cc
    receive_less b (bs ∷ rest, out) h = omega arith

io_copy-returns_example :
    (n : ℕ) × (err : Option GoError) × (q : Process Wires) × (io_copy 3
        (measured_writer 3 target)
        (measured_reader 3 client)
        start
      ≡ some ((n, err), q))
    × (q.metrics ≡ add_to to_client_proxy n (add_to to_proxy_target n no_bytes))
io_copy-returns_example =
    io_copy-returns 3 client target (λ o. length o.0) start refl refl refl refl receive-Ends
      (omega arith) start-IsInt64

plain-IsDocumented : IsDocumented plain_conn
plain-IsDocumented = record {
  write_to = λ f w n err p q h k. cc;
  read_from = λ f read n err p q h k. cc;
}

pass_one-Pumps :
    (w : Writer (Process Wires)) (n : ℕ) (err : Option GoError) (p q : Process Wires)
    → pass_one w p ≡ some ((n, err), q)
    → Pumps (own_read fast_conn) w n p q
unfolding own_read
pass_one-Pumps w n err p q h =
    let bs = (own_read plain_conn 100 p).0.0 in
    let p₁ = (own_read plain_conn 100 p).1 in
    let same_n : (w.write bs p₁).0.0 ≡ n = ap (λ o. elim o [ none ↦ n | some x ↦ x.0.0 ]) h in
    let same_q : (w.write bs p₁).1 ≡ q = ap (λ o. elim o [ none ↦ q | some x ↦ x.1 ]) h in
    subst (λ x. Pumps (own_read fast_conn) w x p q) (add-zero _ ∙ same_n)
      (subst (λ x. Pumps (own_read fast_conn) w ((w.write bs p₁).0.0 + 0) p x) same_q
        (Pumps.reads 100 (Pumps.writes bs Pumps.stop)))

fast-IsDocumented : IsDocumented fast_conn
fast-IsDocumented = record {
  write_to = λ f w n err p q h k. pass_one-Pumps w n err p q (
      ap
        (λ (o : Option (Writer (Process Wires) → Copying (Process Wires))). elim o [
          | none ↦ none
          | some g ↦ g w p
        ])
        h
      ∙ k);
  read_from = λ f read n err p q h k. cc;
}

abbrev fast_client : MeasuredConn Wires
fast_client = measure_conn fast_conn to_proxy_client to_client_proxy

abbrev after_one : Process Wires
after_one = record {
  outside = ((4 ∷ []) ∷ [], 1 ∷ 2 ∷ 3 ∷ []);
  metrics = record no_bytes { client_proxy = 3; proxy_target = 3 };
}

copies_one :
    io_copy 1 (measured_writer 1 target) (measured_reader 1 fast_client) start
    ≡ some ((3, none), after_one)
unfolding io_copy measured_write_to measured_write own_read own_write count_copy add_to
copies_one = refl

io_copy-counts_example :
    after_one.metrics ≡ add_to to_client_proxy 3 (add_to to_proxy_target 3 no_bytes)
io_copy-counts_example =
    io_copy-counts 1 fast_client target 3 none start after_one fast-IsDocumented plain-IsDocumented
      start-IsInt64 copies_one
