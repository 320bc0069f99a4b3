-- ===== src/Udp/Drain.antt =====
-- service/udp.go: the NAT table of a port over the runs of its UDP service.
use outline_ss_server.Udp.Lifecycle.{NatWorld, Steps, none_left, after_step, Orderly}
use outline_ss_server.Udp.Turns.{step-Orderly}

module _ {Key : Type 0} where
  -- At every moment of a run, if it was so before the run: each client of the table is in the hands of
  -- exactly one goroutine, its own or, while the loop is in `Add` for it, the loop's, and each of
  -- these has its client in the table; the entries that are reported as added and not yet as
  -- removed are as many as those whose `AddUDPNatEntry` has been called and whose `RemoveUDPNatEntry` has
  -- not; and the loop has at most one entry in `Add`, and none when it is elsewhere.
  pub Steps-Orderly : (u v : NatWorld Key) → Steps u v → Orderly u → Orderly v
  Steps-Orderly u v (none_left w) o = o
  Steps-Orderly u v (after_step a b c s ss) o = Steps-Orderly b c ss (step-Orderly a b s o)
