-- ===== src/Measure/Fast.antt =====
-- What Go documents of `WriteTo` and `ReadFrom`, for the connections that
-- service/metrics/metrics.go wraps.
use outline_ss_server.Prelude.{ℕ, ◌+◌, ◌≡◌, Option, some, List, length}
use outline_ss_server.Net.GoError.{GoError}
use outline_ss_server.Measure.Copy.{Read, Write, Copying, Writer}
use outline_ss_server.Measure.{Process, StreamConn, own_read, own_write}

-- A `WriteTo` that has returned n: calls of the connection's own `Read`, and of the writer's `Write`
-- or `ReadFrom`, in some order; n is the number of bytes that these wrote.
pub data Pumps {S : Type 0} (read : Read S) (w : Writer S) : ℕ → S → S → Type 0 where
  stop : {s : S} → Pumps read w 0 s s
  reads : {n : ℕ} {s s' : S} → (b : ℕ) → Pumps read w n (read b s).1 s' → Pumps read w n s s'
  writes :
      {n : ℕ} {s s' : S}
      → (bs : List ℕ) → Pumps read w n (w.write bs s).1 s'
      → Pumps read w ((w.write bs s).0.0 + n) s s'
  hands_over :
      {k n : ℕ} {s s₁ s' : S} {err : Option GoError} {read_from : Read S → Copying S}
      → w.read_from ≡ some read_from
      → read_from read s ≡ some ((k, err), s₁)
      → Pumps read w n s₁ s'
      → Pumps read w (k + n) s s'

-- A `ReadFrom` that has returned n: calls of the `Read` it is given, and of the connection's own
-- `Write`; n is the number of bytes that were read.
pub data Drinks {S : Type 0} (read : Read S) (write : Write S) : ℕ → S → S → Type 0 where
  stop : {s : S} → Drinks read write 0 s s
  reads :
      {n : ℕ} {s s' : S}
      → (b : ℕ) → Drinks read write n (read b s).1 s'
      → Drinks read write (length (read b s).0.0 + n) s s'
  writes :
      {n : ℕ} {s s' : S}
      → (bs : List ℕ) → Drinks read write n (write bs s).1 s'
      → Drinks read write n s s'

pub record IsDocumented {Outside : Type 0} (conn : StreamConn Outside) : Type 0 where
  pub write_to :
      (f : Writer (Process Outside) → Copying (Process Outside)) (w : Writer (Process Outside))
      (n : ℕ) (err : Option GoError) (p q : Process Outside)
      → conn.write_to ≡ some f
      → f w p ≡ some ((n, err), q)
      → Pumps (own_read conn) w n p q
  pub read_from :
      (f : Read (Process Outside) → Copying (Process Outside)) (read : Read (Process Outside))
      (n : ℕ) (err : Option GoError) (p q : Process Outside)
      → conn.read_from ≡ some f
      → f read p ≡ some ((n, err), q)
      → Drinks read (own_write conn) n p q
