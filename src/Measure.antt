-- ===== src/Measure.antt =====
-- service/metrics/metrics.go: connections that count the bytes that pass through them.
pub mod Copy
pub mod Int64
pub mod Fast
pub mod Quiet
pub mod Counts
pub mod Returns
mod Tests
use outline_ss_server.Prelude.{ℕ, ◌+◌, ◌%◌, Option, none, some, List, length}
use outline_ss_server.Net.GoError.{GoError}
use outline_ss_server.Tcp.State.{ProxyMetrics}
use outline_ss_server.Measure.Copy.{Ended, Read, Write, Copying, Reader, Writer, io_copy}

-- `&proxyMetrics.ClientProxy` and so on: the counters that a connection is given pointers to.
pub data Pointer : Type 0 where
  to_client_proxy to_proxy_target to_target_proxy to_proxy_client : Pointer

abbrev pub modulus : ℕ
modulus = 18_446_744_073_709_551_616

-- `*c += n`: an int64 is its 64 bits, and a sum wraps around.
unfoldable pub add_to : Pointer → ℕ → ProxyMetrics → ProxyMetrics
add_to to_client_proxy n m = record m { client_proxy = (m.client_proxy + n) % modulus }
add_to to_proxy_target n m = record m { proxy_target = (m.proxy_target + n) % modulus }
add_to to_target_proxy n m = record m { target_proxy = (m.target_proxy + n) % modulus }
add_to to_proxy_client n m = record m { proxy_client = (m.proxy_client + n) % modulus }

-- The counters, and everything else that the connections act on.
pub record Process (Outside : Type 0) : Type 0 where
  pub outside : Outside
  pub metrics : ProxyMetrics

-- A transport.StreamConn, by its methods; `ReadFrom` and `WriteTo` if it has them.
pub record StreamConn (Outside : Type 0) : Type 0 where
  pub read : Read Outside
  pub write : Write Outside
  pub read_from : Option (Read (Process Outside) → Copying (Process Outside))
  pub write_to : Option (Writer (Process Outside) → Copying (Process Outside))

pub record MeasuredConn (Outside : Type 0) : Type 0 where
  pub stream_conn : StreamConn Outside
  pub write_count : Pointer
  pub read_count : Pointer

-- `MeasureConn`
abbrev pub measure_conn :
    {Outside : Type 0} → StreamConn Outside → Pointer → Pointer → MeasuredConn Outside
measure_conn conn bytes_sent bytes_received = record {
  stream_conn = conn;
  write_count = bytes_sent;
  read_count = bytes_received;
}

module _ {Outside : Type 0} where
  -- The connection's own methods do not touch the counters.
  unfoldable pub own_read : StreamConn Outside → Read (Process Outside)
  own_read conn b p =
      let (r, outside) = conn.read b p.outside in (r, record p { outside = outside })

  unfoldable pub own_write : StreamConn Outside → Write (Process Outside)
  own_write conn bs p =
      let (r, outside) = conn.write bs p.outside in (r, record p { outside = outside })

  -- `c.StreamConn` as an io.Reader and as an io.Writer.
  abbrev pub own_reader : StreamConn Outside → Reader (Process Outside)
  own_reader conn = record { read = own_read conn; write_to = conn.write_to }

  abbrev pub own_writer : StreamConn Outside → Writer (Process Outside)
  own_writer conn = record { write = own_write conn; read_from = conn.read_from }

  -- The counter after a copy that has returned.
  unfoldable pub count_copy :
      Pointer
      → Option ((ℕ × Option GoError) × Process Outside)
      → Option ((ℕ × Option GoError) × Process Outside)
  count_copy c none = none
  count_copy c (some ((n, err), p)) = some ((n, err), record p { metrics = add_to c n p.metrics })

  -- `Read`
  unfoldable pub measured_read : MeasuredConn Outside → Read (Process Outside)
  unfolding own_read add_to
  measured_read c b p =
      let ((bs, ended), p') = own_read c.stream_conn b p in
      ((bs, ended), record p' { metrics = add_to c.read_count (length bs) p'.metrics })

  -- `Write`
  unfoldable pub measured_write : MeasuredConn Outside → Write (Process Outside)
  unfolding own_write add_to
  measured_write c bs p =
      let ((n, err), p') = own_write c.stream_conn bs p in
      ((n, err), record p' { metrics = add_to c.write_count n p'.metrics })

  -- `WriteTo`
  unfoldable pub measured_write_to :
      ℕ → MeasuredConn Outside → Writer (Process Outside) → Copying (Process Outside)
  unfolding count_copy
  measured_write_to fuel c w p =
      count_copy c.read_count (io_copy fuel w (own_reader c.stream_conn) p)

  -- `ReadFrom`
  unfoldable pub measured_read_from :
      ℕ → MeasuredConn Outside → Reader (Process Outside) → Copying (Process Outside)
  unfolding count_copy
  measured_read_from fuel c r p = elim c.stream_conn.read_from [
    | some read_from ↦ count_copy c.write_count (read_from r.read p)
    | none ↦ count_copy c.write_count (io_copy fuel (own_writer c.stream_conn) r p)
  ]

  -- A measured connection is an io.WriterTo and an io.ReaderFrom.
  abbrev pub measured_reader : ℕ → MeasuredConn Outside → Reader (Process Outside)
  measured_reader fuel c = record {
    read = measured_read c;
    write_to = some (measured_write_to fuel c);
  }

  abbrev pub measured_writer : ℕ → MeasuredConn Outside → Writer (Process Outside)
  measured_writer fuel c = record {
    write = measured_write c;
    read_from = some (λ read. measured_read_from fuel c (record { read = read; write_to = none }));
  }
