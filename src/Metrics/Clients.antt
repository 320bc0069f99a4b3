-- ===== src/Metrics/Clients.antt =====
-- The clients that the metrics of cmd/outline-ss-server/metrics.go take for connected after a connection
-- of service/tcp.go has been served.
use outline_ss_server.Prelude.{
  ℕ, ◌+◌, ◌-◌, ◌≡◌, refl, inl, inr, String, Bool, Option, List, ◌++◌, if◌then◌else◌, Option-cases,
  arith,
}
use mathlib.Core.Path.{subst}
use outline_ss_server.Net.GoError.{ConnectionError}
use outline_ss_server.Cipher.{Addr}
use outline_ss_server.Tcp.State.{Event, World, Service, done}
use outline_ss_server.Tcp.Auth.{Session, accepted, refused, authenticate}
use outline_ss_server.Tcp.Dial.{Dialed, connected, dial_failed}
use outline_ss_server.Tcp.Handler.{Visit, Request, bad_request, target, serve_one}
use outline_ss_server.Tcp.Trace.{
  started, deadline_events, outcome_of, dial_outcome, serve_one-refused, serve_one_accepted,
}
use outline_ss_server.Tunnel.{IpKey}
use outline_ss_server.Tunnel.Counts.{Holds}
use outline_ss_server.Metrics.{OutlineMetrics}
use outline_ss_server.Metrics.Visits.{Clock, observe, is_client, counted, observe-Holds}

module _ {Key : Type 0} (svc : Service Key) (visit : Visit Key) (parse_addr : String → Option Addr)
    (key : IpKey) where
  counted-deadlines :
      (es : List Event) (n : ℕ)
      → counted svc.text parse_addr key (deadline_events svc visit ++ es) n
        ≡ counted svc.text parse_addr key es n
  unfolding counted
  counted-deadlines es n = elim (Option-cases visit.ctx_deadline) [
    | inl e ↦ rw e refl
    | inr (d, e) ↦ rw e refl
  ]

  counted-dial :
      (t : String) (d : Dialed) (es : List Event) (n : ℕ)
      → counted svc.text parse_addr key ((dial_outcome svc visit t d).0 ++ es) n
        ≡ counted svc.text parse_addr key es n
  unfolding counted
  counted-dial t (dial_failed e) es n = refl
  counted-dial t (connected a) es n = refl

  counted-outcome :
      (r : Request) (es : List Event) (n : ℕ)
      → counted svc.text parse_addr key ((outcome_of svc visit r).0 ++ es) n
        ≡ counted svc.text parse_addr key es n
  unfolding counted
  counted-outcome (bad_request e k) es n = refl
  counted-outcome (target t k) es n = counted-dial t (visit.dial_stream t) es n

  back :
      (b : Bool) (x : ℕ)
      → (if b then (if b then x + 1 else x) - 1 else (if b then x + 1 else x)) ≡ x
  back b x = ground arith

  counted-accepted :
      (w w' : World Key) (id : List ℕ) (session : Session Key) (n : ℕ)
      → authenticate svc visit.remote (started svc visit w) ≡ (done (accepted id session), w')
      → counted svc.text parse_addr key (serve_one svc visit w).log n
        ≡ counted svc.text parse_addr key w.log n
  unfolding counted
  counted-accepted w w' id session n e =
      let (b, bytes, log) = serve_one_accepted svc visit w w' id session e in
      rw (log, counted-outcome (visit.read_request session w'.conn.input), counted-deadlines)
        (back (is_client svc.text parse_addr key visit.remote id) _)

  counted-refused :
      (w w' : World Key) (id : List ℕ) (err : ConnectionError) (n : ℕ)
      → authenticate svc visit.remote (started svc visit w) ≡ (done (refused id err), w')
      → let before = counted svc.text parse_addr key w.log n in
        counted svc.text parse_addr key (serve_one svc visit w).log n
        ≡ (if is_client svc.text parse_addr key visit.remote id then before - 1 else before)
  unfolding counted
  counted-refused w w' id err n e =
      let (b, log) = serve_one-refused svc visit w w' id err e in rw (log, counted-deadlines) refl

  -- A connection that is authenticated leaves the number of connections that the metrics count for each
  -- client as it was, once it is closed, whatever its outcome; a client that has no other one is no
  -- longer in the map.
  pub accepted-Holds :
      (clock : Clock) (m : OutlineMetrics) (w w' : World Key) (id : List ℕ) (session : Session Key)
      (n : ℕ)
      → authenticate svc visit.remote (started svc visit w) ≡ (done (accepted id session), w')
      → Holds key n m.tunnel_time
      → Holds key
          (counted svc.text parse_addr key w.log n)
          (observe svc.text parse_addr clock (serve_one svc visit w).log m).tunnel_time
  accepted-Holds clock m w w' id session n e h =
      subst
        (λ k.
          Holds key k (observe svc.text parse_addr clock (serve_one svc visit w).log m).tunnel_time)
        (counted-accepted w w' id session n e)
        (observe-Holds svc.text parse_addr key clock (serve_one svc visit w).log n m h)

  -- A connection that is refused was never counted, but its close takes one off the count of the client
  -- with its address and the ID that it is refused under, if that client has a connection.
  pub refused-Holds :
      (clock : Clock) (m : OutlineMetrics) (w w' : World Key) (id : List ℕ) (err : ConnectionError)
      (n : ℕ)
      → authenticate svc visit.remote (started svc visit w) ≡ (done (refused id err), w')
      → Holds key n m.tunnel_time
      → let before = counted svc.text parse_addr key w.log n in
        Holds key
          (if is_client svc.text parse_addr key visit.remote id then before - 1 else before)
          (observe svc.text parse_addr clock (serve_one svc visit w).log m).tunnel_time
  refused-Holds clock m w w' id err n e h =
      subst
        (λ k.
          Holds key k (observe svc.text parse_addr clock (serve_one svc visit w).log m).tunnel_time)
        (counted-refused w w' id err n e)
        (observe-Holds svc.text parse_addr key clock (serve_one svc visit w).log n m h)
