-- ===== src/Measure/Counts.antt =====
-- A copy between two connections of service/metrics/metrics.go is counted once on each side.
use outline_ss_server.Prelude.{
  ℕ, ◌≡◌, refl, sym, ap, ◌∙◌, inl, inr, Option, none, some, List, Option-cases,
}
use outline_ss_server.Net.GoError.{GoError}
use outline_ss_server.Measure.Copy.{
  Read, Copying, io_copy, io_copy_plain, io_copy_write_to, io_copy_read_from,
}
use outline_ss_server.Measure.{
  Pointer, add_to, Process, StreamConn, MeasuredConn, own_read, own_write, own_reader, own_writer,
  count_copy, measured_write, measured_write_to, measured_read_from, measured_reader,
  measured_writer,
}
use outline_ss_server.Measure.Int64.{IsInt64, add_to-zero, add_to-add, add_to-IsInt64}
use outline_ss_server.Measure.Fast.{Pumps, IsDocumented}
use outline_ss_server.Measure.Quiet.{Quiet, Drinks-metrics, loop-metrics}

module _ {Outside : Type 0} where
  -- What a copy that is counted returns, and what the copy under it did.
  count_copy-eq-some :
      (c : Pointer) (o : Option ((ℕ × Option GoError) × Process Outside)) (n : ℕ)
      (err : Option GoError) (q : Process Outside)
      → count_copy c o ≡ some ((n, err), q)
      → (p : Process Outside) × (o ≡ some ((n, err), p)) × (q.metrics ≡ add_to c n p.metrics)
  unfolding count_copy
  count_copy-eq-some c none n err q h = cc
  count_copy-eq-some c (some ((k, e), p)) n err q h =
      let (same_n, same_e) : (k ≡ n) × (e ≡ err) = (
        ap (λ o. elim o [ none ↦ k | some x ↦ x.0.0 ]) h,
        ap (λ o. elim o [ none ↦ e | some x ↦ x.0.1 ]) h,
      ) in
      let same_q : record p { metrics = add_to c k p.metrics } ≡ q =
        ap (λ o. elim o [ none ↦ q | some x ↦ x.1 ]) h in
      (
        p,
        rw (same_n, same_e) refl,
        sym (ap (λ (x : Process Outside). x.metrics) same_q)
            ∙ ap (λ x. add_to c x p.metrics) same_n,
      )

  own_read-Quiet : (conn : StreamConn Outside) (b : ℕ) → Quiet (own_read conn b)
  unfolding own_read
  own_read-Quiet conn b p = refl

  own_write-Quiet : (conn : StreamConn Outside) (bs : List ℕ) → Quiet (own_write conn bs)
  unfolding own_write
  own_write-Quiet conn bs p = refl

  -- `ReadFrom` of a measured connection, given a `Read` that is not: its copy is counted once.
  read_from-metrics :
      (fuel : ℕ) (c : MeasuredConn Outside) (read : Read (Process Outside)) (n : ℕ)
      (err : Option GoError) (p q : Process Outside)
      → IsDocumented c.stream_conn
      → ((b : ℕ) → Quiet (read b))
      → measured_read_from fuel c (record { read = read; write_to = none }) p ≡ some ((n, err), q)
      → q.metrics ≡ add_to c.write_count n p.metrics
  unfolding measured_read_from
  read_from-metrics fuel c read n err p q d r h = elim (Option-cases c.stream_conn.read_from) [
    | inl absent ↦
        let (q', copied, counted) =
          count_copy-eq-some c.write_count _ n err q (rw (absent, measured_read_from) at h) in
        counted
        ∙ ap (add_to c.write_count n) (
            loop-metrics fuel (own_write c.stream_conn) read 0 n err p q' r
              (own_write-Quiet c.stream_conn)
              (sym (io_copy_plain fuel (own_writer c.stream_conn) _ p refl absent) ∙ copied))
    | inr (f, present) ↦
        let (q', copied, counted) =
          count_copy-eq-some c.write_count _ n err q (rw (present, measured_read_from) at h) in
        counted
        ∙ ap (add_to c.write_count n) (
            Drinks-metrics r (own_write-Quiet c.stream_conn)
              (d.read_from f read n err p q' present copied))
  ]

  -- `Write` of a measured connection.
  write-metrics :
      (c : MeasuredConn Outside) (bs : List ℕ) (p : Process Outside)
      → (measured_write c bs p).1.metrics
        ≡ add_to c.write_count (measured_write c bs p).0.0 p.metrics
  unfolding measured_write own_write
  write-metrics c bs p = refl

  writer_read_from :
      (fuel : ℕ) (c : MeasuredConn Outside) (read : Read (Process Outside)) (n : ℕ)
      (err : Option GoError) (p q : Process Outside)
      (f : Read (Process Outside) → Copying (Process Outside))
      → (measured_writer fuel c).read_from ≡ some f
      → f read p ≡ some ((n, err), q)
      → measured_read_from fuel c (record { read = read; write_to = none }) p ≡ some ((n, err), q)
  writer_read_from fuel c read n err p q f same h =
      ap
        (λ (o : Option (Read (Process Outside) → Copying (Process Outside))). elim o [
          | none ↦ none
          | some g ↦ g read p
        ])
        same
      ∙ h

  Pumps-metrics :
      (fuel : ℕ) (src : StreamConn Outside) (dst : MeasuredConn Outside) {n : ℕ}
      {p q : Process Outside}
      → IsDocumented dst.stream_conn
      → IsInt64 p.metrics
      → Pumps (own_read src) (measured_writer fuel dst) n p q
      → q.metrics ≡ add_to dst.write_count n p.metrics
  Pumps-metrics fuel src dst d v Pumps.stop = sym (add_to-zero dst.write_count _ v)
  Pumps-metrics fuel src dst {n} {p} {q} d v (Pumps.reads b rest) =
      let same = own_read-Quiet src b p in
      Pumps-metrics fuel src dst d (rw same v) rest ∙ ap (add_to dst.write_count n) same
  Pumps-metrics fuel src dst {p = p} d v (Pumps.writes {n} bs rest) =
      let here = write-metrics dst bs p in
      Pumps-metrics fuel src dst d (rw here (add_to-IsInt64 dst.write_count _ p.metrics v)) rest
      ∙ ap (add_to dst.write_count n) here
      ∙ add_to-add dst.write_count _ n p.metrics
  Pumps-metrics fuel src dst {p = p} d v
        (Pumps.hands_over {k = k} {n = n} {s₁ = s₁} {err = err} {read_from = f} same h rest) =
      let here =
        read_from-metrics fuel dst (own_read src) k err p s₁ d (own_read-Quiet src)
          (writer_read_from fuel dst (own_read src) k err p s₁ f same h) in
      Pumps-metrics fuel src dst d (rw here (add_to-IsInt64 dst.write_count k p.metrics v)) rest
      ∙ ap (add_to dst.write_count n) here
      ∙ add_to-add dst.write_count k n p.metrics

  -- The copy under `WriteTo` of a measured connection, into another one.
  under_write_to :
      (fuel : ℕ) (src : StreamConn Outside) (dst : MeasuredConn Outside) (n : ℕ)
      (err : Option GoError) (p q : Process Outside)
      → IsDocumented src
      → IsDocumented dst.stream_conn
      → IsInt64 p.metrics
      → io_copy fuel (measured_writer fuel dst) (own_reader src) p ≡ some ((n, err), q)
      → q.metrics ≡ add_to dst.write_count n p.metrics
  under_write_to fuel src dst n err p q ds dd v h = elim (Option-cases src.write_to) [
    | inl absent ↦ read_from-metrics fuel dst (own_read src) n err p q dd (own_read-Quiet src) (
        sym (io_copy_read_from fuel (measured_writer fuel dst) (own_reader src) p _ absent refl)
        ∙ h)
    | inr (f, present) ↦ Pumps-metrics fuel src dst dd v (
        ds.write_to f (measured_writer fuel dst) n err p q present
          (sym (io_copy_write_to fuel (measured_writer fuel dst) (own_reader src) p f present) ∙ h))
  ]

  -- A copy from one measured connection to another that returns n, with or without an error, adds n
  -- once to the read counter of the one and once to the write counter of the other, modulo 2^64, and
  -- changes no other counter, whichever of `WriteTo`, `ReadFrom` and the loop of `Read` and `Write` carry
  -- the bytes. The wrapped connections' `WriteTo` and `ReadFrom`, if they have them, return what Go documents.
  pub io_copy-counts :
      (fuel : ℕ) (src dst : MeasuredConn Outside) (n : ℕ) (err : Option GoError)
      (p q : Process Outside)
      → IsDocumented src.stream_conn
      → IsDocumented dst.stream_conn
      → IsInt64 p.metrics
      → io_copy fuel (measured_writer fuel dst) (measured_reader fuel src) p ≡ some ((n, err), q)
      → q.metrics ≡ add_to src.read_count n (add_to dst.write_count n p.metrics)
  unfolding measured_write_to io_copy
  io_copy-counts fuel src dst n err p q ds dd v h =
      let (q', copied, counted) = count_copy-eq-some src.read_count _ n err q h in
      counted
      ∙ ap (add_to src.read_count n)
          (under_write_to fuel src.stream_conn dst n err p q' ds dd v copied)
