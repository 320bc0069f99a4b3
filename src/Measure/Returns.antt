-- ===== src/Measure/Returns.antt =====
-- A copy between two connections of service/metrics/metrics.go returns once its source has ended.
use outline_ss_server.Prelude.{
  ℕ, zero, suc, ◌+◌, ◌≤◌, ◌<◌, ◌≡◌, refl, ap, ◌∙◌, inl, inr, Option, none, some, List, length,
  arith, Bool-cases, ◌==◌,
}
use outline_ss_server.Net.GoError.{GoError}
use outline_ss_server.Measure.Copy.{
  Reader, Copying, Ended, more, eof, failed, Read, Write, Verdict, goes_on, stops, after_read,
  write_turn, turn, copy_loop, io_copy, io_copy_plain, io_copy_read_from,
}
use outline_ss_server.Measure.Int64.{IsInt64}
use outline_ss_server.Measure.Fast.{IsDocumented}
use outline_ss_server.Measure.{
  Pointer, add_to, Process, StreamConn, MeasuredConn, own_read, own_write, own_reader, own_writer,
  count_copy, measured_write_to, measured_read_from, measured_reader, measured_writer,
}
use outline_ss_server.Measure.Counts.{io_copy-counts}
use outline_ss_server.Measure.Quiet.{verdict_cases}

-- A source that ends: a `Read` that returns no error takes something of what is left, and a `Write`
-- adds nothing to it.
pub record Ends {S : Type 0} (read : Read S) (write : Write S) (left : S → ℕ) : Type 0 where
  pub reads : (b : ℕ) (s : S) → (read b s).0.1 ≡ more → left (read b s).1 < left s
  pub writes : (bs : List ℕ) (s : S) → left (write bs s).1 ≤ left s

after_read-goes_on : (e : Ended) (v : Verdict) → after_read e v ≡ goes_on → e ≡ more
after_read-goes_on more v h = refl
after_read-goes_on eof goes_on h = cc
after_read-goes_on eof (stops e) h = cc
after_read-goes_on (failed f) goes_on h = cc
after_read-goes_on (failed f) (stops e) h = cc

module _ {S : Type 0} (read : Read S) (write : Write S) (left : S → ℕ)
    (ends : Ends read write left) where
  turn-left : (s : S) → left (turn write read s).1 ≤ left (read 32_768 s).1
  unfolding turn write_turn
  turn-left s = elim (Bool-cases (length (read 32_768 s).0.0 == 0)) [
    | inl empty ↦ rw (empty, turn, write_turn) (omega arith)
    | inr some_bytes ↦ rw (some_bytes, turn, write_turn) (ends.writes _ _)
  ]

  turn-less : (s : S) → (turn write read s).0.1 ≡ goes_on → left (turn write read s).1 < left s
  unfolding turn
  turn-less s h =
      let less = ends.reads 32_768 s (after_read-goes_on _ _ h) in
      let le = turn-left s in omega (arith, less, le)

  pub copy_loop-returns :
      (fuel written : ℕ) (s : S)
      → left s < fuel
      → (n : ℕ) × (err : Option GoError) × (s' : S) × (copy_loop fuel write read written s
          ≡ some ((n, err), s'))
  unfolding copy_loop
  copy_loop-returns zero written s l = absurd (omega arith)
  copy_loop-returns (suc fuel) written s l = elim (verdict_cases (turn write read s).0.1) [
    | inl go ↦
        let less = turn-less s go in
        let (n, err, s', e) =
          copy_loop-returns fuel (written + (turn write read s).0.0) (turn write read s).1
            (omega (arith, less, l)) in
        (n, err, s', rw (go, copy_loop) e)
    | inr (e, stop) ↦
        (written + (turn write read s).0.0, e, (turn write read s).1, rw (stop, copy_loop) refl)
  ]

module _ {Outside : Type 0} where
  own-Ends :
      (src dst : StreamConn Outside) (left : Outside → ℕ)
      → Ends src.read dst.write left
      → Ends (own_read src) (own_write dst) (λ p. left p.outside)
  unfolding own_read own_write
  own-Ends src dst left e = record {
    reads = λ b p h. e.reads b p.outside h;
    writes = λ bs p. e.writes bs p.outside;
  }

  -- What Go documents of fast paths asks nothing of a connection without them.
  no_fast-IsDocumented :
      (conn : StreamConn Outside) → conn.write_to ≡ none → conn.read_from ≡ none → IsDocumented conn
  no_fast-IsDocumented conn a b = record {
    write_to = λ f w n err p q h k. cc (a, h);
    read_from = λ f read n err p q h k. cc (b, h);
  }

  counted_returns :
      (c : Pointer) (o : Option ((ℕ × Option GoError) × Process Outside)) (n : ℕ)
      (err : Option GoError) (q : Process Outside)
      → o ≡ some ((n, err), q)
      → (q' : Process Outside) × (count_copy c o ≡ some ((n, err), q'))
  unfolding count_copy
  counted_returns c o n err q e = (record q { metrics = add_to c n q.metrics }, rw e refl)

  read_from_plain :
      (fuel : ℕ) (c : MeasuredConn Outside) (r : Reader (Process Outside)) (p : Process Outside)
      → c.stream_conn.read_from ≡ none
      → measured_read_from fuel c r p
        ≡ count_copy c.write_count (io_copy fuel (own_writer c.stream_conn) r p)
  unfolding measured_read_from
  read_from_plain fuel c r p h =
      ap
        (λ (o : Option (Read (Process Outside) → Copying (Process Outside))). elim o [
          | some read_from ↦ count_copy c.write_count (read_from r.read p)
          | none ↦ count_copy c.write_count (io_copy fuel (own_writer c.stream_conn) r p)
        ])
        h

  -- A copy between measured connections that have neither `WriteTo` nor `ReadFrom` of their own, from
  -- a source with at most k reads left before it ends with EOF or an error, returns within k + 1
  -- turns of its loop, with the bytes n it copied in both counters.
  pub io_copy-returns :
      (fuel : ℕ) (src dst : MeasuredConn Outside) (left : Outside → ℕ) (p : Process Outside)
      → src.stream_conn.write_to ≡ none
      → src.stream_conn.read_from ≡ none
      → dst.stream_conn.write_to ≡ none
      → dst.stream_conn.read_from ≡ none
      → Ends src.stream_conn.read dst.stream_conn.write left
      → left p.outside < fuel
      → IsInt64 p.metrics
      → (n : ℕ) × (err : Option GoError) × (q : Process Outside) × (io_copy fuel
            (measured_writer fuel dst)
            (measured_reader fuel src)
            p
          ≡ some ((n, err), q))
        × (q.metrics ≡ add_to src.read_count n (add_to dst.write_count n p.metrics))
  unfolding io_copy measured_write_to
  io_copy-returns fuel src dst left p sw sr dw dr e l v =
      let (n, err, q, loop) =
        copy_loop-returns (own_read src.stream_conn) (own_write dst.stream_conn)
          (λ (p : Process Outside). left p.outside)
          (own-Ends src.stream_conn dst.stream_conn left e) fuel 0 p l in
      let raw : Reader (Process Outside) = record {
        read = own_read src.stream_conn;
        write_to = none;
      } in
      let (q₁, inner) =
        counted_returns dst.write_count _ n err q
          (io_copy_plain fuel (own_writer dst.stream_conn) raw p refl dr ∙ loop) in
      let under =
        io_copy_read_from fuel (measured_writer fuel dst) (own_reader src.stream_conn) p _ sw refl
        ∙ read_from_plain fuel dst raw p dr
        ∙ inner in
      let (q₂, outer) = counted_returns src.read_count _ n err q₁ under in
      (
        n,
        err,
        q₂,
        outer,
        io_copy-counts fuel src dst n err p q₂ (no_fast-IsDocumented src.stream_conn sw sr)
            (no_fast-IsDocumented dst.stream_conn dw dr) v outer,
      )
