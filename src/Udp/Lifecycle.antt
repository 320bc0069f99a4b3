-- ===== src/Udp/Lifecycle.antt =====
-- service/udp.go: the entries of the NAT table and the goroutines that `natmap.Add` starts for them, as
-- steps of the UDP service of a port. A step is one call of `Add` or of a goroutine, between which the
-- others may act; those of the table's methods hold its mutex.
use outline_ss_server.Prelude.{
  ℕ, ◌+◌, ◌≡◌, String, Bool, true, false, none, some, List, [], ◌∷◌, ◌++◌, if◌then◌else◌,
}
use outline_ss_server.Prelude.Maps.{string_eq, keys, elem, Once}
use outline_ss_server.IpInfo.{IpInfo}
use outline_ss_server.Udp.NatConn.{NatConn, on_write}
use outline_ss_server.Udp.NatMap.{NatMap, get, set, del, update, close}

-- How far an entry has come: `Add` has put it into the table; it has called `AddUDPNatEntry`; its
-- goroutine runs `timedCopy`; `timedCopy` has returned; `RemoveUDPNatEntry` has been called.
pub data Phase : Type 0 where
  entered announced copies ended reported : Phase

-- The entries that the loop's `Add` or a goroutine has in hand, by the text of their client's address;
-- the calls of `AddUDPNatEntry` and of `RemoveUDPNatEntry`; whether `Handle` is in its loop, and
-- whether the loop is in `Add`.
pub record NatWorld (Key : Type 0) : Type 0 where
  pub nat : NatMap Key
  pub running : List (String × Phase)
  pub added : ℕ
  pub removed : ℕ
  pub serving : Bool
  pub adding : Bool

-- The loop calls `Add` after `Get` has found nothing; `Add` puts the entry into the table, reports it, and
-- starts its goroutine. A packet of a known client is written to its entry. A copy ends; its goroutine
-- reports that, and then removes the client's entry. The loop, when it is not in `Add`, ends with
-- `Close`, after which `Handle` returns at once. Left out are the WaitGroup, for which nothing waits, and
-- a write to an entry that has been removed since `Get`, which does not touch the table.
pub data Step {Key : Type 0} : NatWorld Key → NatWorld Key → Type 0 where
  add_sets :
      (w : NatWorld Key) (key : String) (crypto_key : Key) (id : List ℕ) (info : IpInfo)
      → w.serving ≡ true
      → w.adding ≡ false
      → get key w.nat ≡ none
      → Step w (record w {
        nat = (set key crypto_key id info w.nat).1;
        running = (key, entered) ∷ w.running;
        adding = true;
      })
  add_reports :
      (w : NatWorld Key) (xs ys : List (String × Phase)) (key : String)
      → w.running ≡ xs ++ ((key, entered) ∷ ys)
      → Step w (record w { running = xs ++ ((key, announced) ∷ ys); added = w.added + 1 })
  add_goes :
      (w : NatWorld Key) (xs ys : List (String × Phase)) (key : String)
      → w.running ≡ xs ++ ((key, announced) ∷ ys)
      → Step w (record w { running = xs ++ ((key, copies) ∷ ys); adding = false })
  write :
      (w : NatWorld Key) (key : String) (entry : NatConn Key) (dns : Bool) (now : ℕ)
      → w.serving ≡ true
      → w.adding ≡ false
      → get key w.nat ≡ some entry
      → Step w (record w { nat = update key (on_write dns now entry) w.nat })
  copy_ends :
      (w : NatWorld Key) (xs ys : List (String × Phase)) (key : String)
      → w.running ≡ xs ++ ((key, copies) ∷ ys)
      → Step w (record w { running = xs ++ ((key, ended) ∷ ys) })
  report_ends :
      (w : NatWorld Key) (xs ys : List (String × Phase)) (key : String)
      → w.running ≡ xs ++ ((key, ended) ∷ ys)
      → Step w (record w { running = xs ++ ((key, reported) ∷ ys); removed = w.removed + 1 })
  remove :
      (w : NatWorld Key) (xs ys : List (String × Phase)) (key : String)
      → w.running ≡ xs ++ ((key, reported) ∷ ys)
      → Step w (record w { running = xs ++ ys; nat = (del key w.nat).1 })
  stop :
      (w : NatWorld Key) (now : ℕ)
      → w.serving ≡ true
      → w.adding ≡ false
      → Step w (record w { nat = close now w.nat; serving = false })

pub data Steps {Key : Type 0} : NatWorld Key → NatWorld Key → Type 0 where
  none_left : (w : NatWorld Key) → Steps w w
  after_step : (u v w : NatWorld Key) → Step u v → Steps v w → Steps u w

-- Whether an entry in a phase is reported as added and not as removed, and whether it is in `Add`.
abbrev pub open_in : Phase → ℕ
open_in entered = 0
open_in announced = 1
open_in copies = 1
open_in ended = 1
open_in reported = 0

abbrev pub adding_in : Phase → ℕ
adding_in entered = 1
adding_in announced = 1
adding_in copies = 0
adding_in ended = 0
adding_in reported = 0

unfoldable pub count : (Phase → ℕ) → List (String × Phase) → ℕ
count f [] = 0
count f ((key, phase) ∷ gs) = f phase + count f gs

-- Each client of the table is in the hands of one `Add` or goroutine, and of each of these the client is
-- in the table; the entries that are reported as added and not as removed are those in the phases
-- between the two calls; and the loop has one entry in `Add` when it is there, and else none, so
-- that every client has a goroutine.
pub record Orderly {Key : Type 0} (w : NatWorld Key) : Type 0 where
  pub once : Once (keys w.running)
  pub owned : (key : String) → elem key (keys w.running) ≡ elem key (keys w.nat.key_conn)
  pub counted : w.added ≡ w.removed + count open_in w.running
  pub alone : count adding_in w.running ≡ (if w.adding then 1 else 0)
