-- ===== src/Tcp/Trace.antt =====
-- What the handler of service/tcp.go reports about a connection, and in what order it acts.
use outline_ss_server.Prelude.{
  ℕ, ◌+◌, ◌≡◌, refl, ap, ◌∙◌, inl, inr, String, Bool, Option, none, some, List, [], ◌∷◌, ◌++◌, ltb,
  if◌then◌else◌, length, Option-cases,
}
use outline_ss_server.Net.GoError.{
  GoError, new_connection_error, ConnectionError, ensure_connection_error, as_connection_error,
}
use outline_ss_server.IpInfo.{IpInfo, get_ip_info_from_addr}
use outline_ss_server.Tcp.State.{
  ProxyMetrics, no_bytes, Event, opened, authenticated, probe, closed, set_deadline,
  set_read_deadline, drained, cipher_search, dialed, relayed, client_closed, World, Outcome, done,
  ◌>>=◌, pure, bind-done, count_read, drain, Service,
}
use outline_ss_server.Tcp.Auth.{Session, AuthResult, accepted, refused, authenticate}
use native.Mathlib.Nat.{zero-add}
use outline_ss_server.Tcp.Dial.{Dialed, connected, dial_failed}
use outline_ss_server.Tcp.Frame.{total, authenticate_frame}
use outline_ss_server.Tcp.Handler.{
  after_dial, after_request, Request, target, bad_request, relay_error, RelayEnd, Visit,
  drain_err_to_string, final_status, set_deadlines, after_auth, serve, handle_connection, finish,
  serve_one,
}

module _ {Key : Type 0} (svc : Service Key) (visit : Visit Key) where
  abbrev info : IpInfo
  info = (get_ip_info_from_addr svc.text svc.ip2info visit.remote).0

  -- The deadlines in the log: the context's, if it has one, and the earlier of it and the read
  -- timeout for reads.
  abbrev pub deadline_events : List Event
  deadline_events = elim visit.ctx_deadline [
    | none ↦ set_read_deadline (some (visit.now + svc.read_timeout)) ∷ []
    | some d ↦
        set_read_deadline
          (some (if ltb d (visit.now + svc.read_timeout) then d else visit.now + svc.read_timeout))
        ∷ set_deadline d
        ∷ []
  ]

  -- The world in which the authenticator is called.
  abbrev pub started : World Key → World Key
  started w = record w {
    metrics = no_bytes;
    log =
        deadline_events
        ++ (opened (get_ip_info_from_addr svc.text svc.ip2info visit.remote).0 ∷ w.log);
  }

  pub set_deadlines_lem :
      (w : World Key)
      → set_deadlines svc visit w ≡ (done tt, record w { log = deadline_events ++ w.log })
  unfolding set_deadlines
  set_deadlines_lem w = elim (Option-cases visit.ctx_deadline) [
    | inl e ↦ rw e refl
    | inr (d, e) ↦ rw e refl
  ]

  pub handle_connection_auth :
      (w w' : World Key) (auth : AuthResult Key)
      → authenticate svc visit.remote (record w { log = deadline_events ++ w.log })
        ≡ (done auth, w')
      → handle_connection svc visit w ≡ after_auth svc visit auth w'
  unfolding handle_connection
  handle_connection_auth w w' auth e =
      bind-done (set_deadlines svc visit) _ w (set_deadlines_lem w)
      ∙ bind-done (authenticate svc visit.remote) (after_auth svc visit) _ e

  pub handle_auth :
      (w w' w'' : World Key) (auth : AuthResult Key) (r : List ℕ × Option ConnectionError)
      → authenticate svc visit.remote (started w) ≡ (done auth, w')
      → after_auth svc visit auth w' ≡ (done r, w'')
      → (serve_one svc visit w).log
        ≡ client_closed
          ∷ client_closed
          ∷ closed info visit.remote r.0 (final_status r.1) w''.metrics
          ∷ w''.log
  unfolding serve_one finish
  handle_auth w w' w'' auth r e f =
      ap (λ (p : Outcome (Unit {0}) × World Key). client_closed ∷ p.1.log)
        (bind-done (handle_connection svc visit) (finish info visit) _
          (handle_connection_auth _ w' auth e ∙ f))

  abbrev prior_events : World Key → List Event
  prior_events w =
      deadline_events
      ++ (opened (get_ip_info_from_addr svc.text svc.ip2info visit.remote).0 ∷ w.log)

  -- A connection that the authenticator refuses is drained to its end before anything is closed, is
  -- reported as a probe with the number of all bytes that the client ever sent, and is closed with the
  -- status of the refusal; no target is dialed, and no byte is reported as sent to anyone.
  pub serve_one-refused :
      (w w' : World Key) (id : List ℕ) (err : ConnectionError)
      → authenticate svc visit.remote (started w) ≡ (done (refused id err), w')
      → (b : Bool) × ((serve_one svc visit w).log
          ≡ client_closed
              ∷ client_closed
              ∷ closed
                  (get_ip_info_from_addr svc.text svc.ip2info visit.remote).0
                  visit.remote
                  id
                  err.status
                  (record no_bytes { client_proxy = length w.conn.input })
              ∷ probe err.status (drain_err_to_string w.conn.ending) svc.port (length w.conn.input)
              ∷ drained
              ∷ cipher_search b
              ∷ deadline_events
            ++ (opened (get_ip_info_from_addr svc.text svc.ip2info visit.remote).0 ∷ w.log))
  unfolding after_auth drain
  serve_one-refused w w' id err e =
      let (f, (b, l)) = authenticate_frame svc visit.remote (started w) w' (refused id err) e in
      let sent : total w' ≡ length w.conn.input = f.sent ∙ zero-add _ in
      let counted : count_read w'.metrics (length w'.conn.input)
          ≡ record no_bytes { client_proxy = length w.conn.input } =
        λ i. record {
          client_proxy = sent i;
          proxy_target = f.proxy_target i;
          target_proxy = f.target_proxy i;
          proxy_client = f.proxy_client i;
        } in
      (
        b,
        handle_auth w w' _ (refused id err) (id, some err) e refl
            ∙ (rw (counted, f.ending, sent, l) refl),
      )

  -- The status of a dial that failed: that of the connection error in it, if there is one.
  abbrev pub status_or : Option ConnectionError → String
  status_or none = "ERR_CONNECT"
  status_or (some c) = c.status

  abbrev pub dial_status : GoError → String
  dial_status e = status_or (as_connection_error e)

  -- The status of a relay by the errors of its two copies, the one from the client first.
  abbrev pub status_by : Option GoError → Option GoError → String
  status_by (some e) o = "ERR_RELAY_CLIENT"
  status_by none (some e) = "ERR_RELAY_TARGET"
  status_by none none = "OK"

  abbrev pub relay_status : RelayEnd → String
  relay_status r = status_by r.from_client r.from_target

  dial_status_lem :
      (e : GoError)
      → final_status (ensure_connection_error (some e) "ERR_CONNECT" "Failed to connect to target")
        ≡ dial_status e
  unfolding ensure_connection_error new_connection_error
  dial_status_lem e = elim (Option-cases (as_connection_error e)) [
    | inl absent ↦ rw (absent, ensure_connection_error) refl
    | inr (c, found) ↦ rw (found, ensure_connection_error) refl
  ]

  relay_status_lem : (r : RelayEnd) → final_status (relay_error r) ≡ relay_status r
  unfolding relay_error new_connection_error
  relay_status_lem r = elim (Option-cases r.from_client) [
    | inr (e, failed) ↦ rw (failed, relay_error) refl
    | inl fine ↦ elim (Option-cases r.from_target) [
      | inr (e, failed) ↦ rw (fine, failed, relay_error) refl
      | inl done_too ↦ rw (fine, done_too, relay_error) refl
    ]
  ]

  -- What an authenticated connection does, newest first, and its status: the target address is read
  -- from the decrypted input and the read deadline lifted; a bad address is followed by a drain; a
  -- target is dialed, and relayed to if the dial connects.
  abbrev pub dial_outcome : String → Dialed → List Event × String
  dial_outcome t (dial_failed e) = (dialed t ∷ set_read_deadline none ∷ [], dial_status e)
  dial_outcome t (connected addr) =
      (relayed ∷ dialed t ∷ set_read_deadline none ∷ [], relay_status visit.relay_end)

  abbrev pub outcome_of : Request → List Event × String
  outcome_of (bad_request e n) = (drained ∷ set_read_deadline none ∷ [], "ERR_READ_ADDRESS")
  outcome_of (target t n) = dial_outcome t (visit.dial_stream t)

  after_dial_outcome :
      (w : World Key) (id : List ℕ) (t : String) (d : Dialed) (before : List Event)
      → w.log ≡ dialed t ∷ set_read_deadline none ∷ before
      → (r : List ℕ × Option ConnectionError) × (w' : World Key) × ((after_dial visit d >>= λ err.
              pure (id, err))
            w
          ≡ (done r, w'))
        × (r.0 ≡ id)
        × (final_status r.1 ≡ (dial_outcome t d).1)
        × (w'.log ≡ (dial_outcome t d).0 ++ before)
  unfolding after_dial
  after_dial_outcome w id t (dial_failed e) before l =
      ((id, _), _, refl, refl, dial_status_lem e, l)
  after_dial_outcome w id t (connected a) before l =
      ((id, _), _, refl, refl, relay_status_lem visit.relay_end, ap (◌∷◌ relayed) l)

  after_request_outcome :
      (w : World Key) (id : List ℕ) (request : Request) (before : List Event)
      → w.log ≡ set_read_deadline none ∷ before
      → (r : List ℕ × Option ConnectionError) × (w' : World Key) × (after_request visit id request w
          ≡ (done r, w'))
        × (r.0 ≡ id)
        × (final_status r.1 ≡ (outcome_of request).1)
        × (w'.log ≡ (outcome_of request).0 ++ before)
  unfolding after_request drain new_connection_error
  after_request_outcome w id (bad_request e n) before l =
      ((id, _), _, refl, refl, refl, ap (◌∷◌ drained) l)
  after_request_outcome w id (target t n) before l =
      after_dial_outcome (record w { log = dialed t ∷ w.log }) id t (visit.dial_stream t) before
        (ap (◌∷◌ (dialed t)) l)

  -- An authenticated connection is reported once as opened, authenticated and closed, in this order,
  -- and closed under the ID of its key. Its status is ERR_READ_ADDRESS if no target address can be
  -- read, that of the connection error in a failed dial or else ERR_CONNECT, ERR_RELAY_CLIENT if the copy
  -- from the client ends with an error, ERR_RELAY_TARGET if only that from the target does, and else
  -- OK. Whatever the outcome, the handler does not panic.
  pub serve_one_accepted :
      (w w' : World Key) (id : List ℕ) (session : Session Key)
      → authenticate svc visit.remote (started w) ≡ (done (accepted id session), w')
      → (b : Bool) × (bytes : ProxyMetrics) × ((serve_one svc visit w).log
          ≡ client_closed
              ∷ client_closed
              ∷ closed
                  (get_ip_info_from_addr svc.text svc.ip2info visit.remote).0
                  visit.remote
                  id
                  (outcome_of (visit.read_request session w'.conn.input)).1
                  bytes
              ∷ (outcome_of (visit.read_request session w'.conn.input)).0
            ++ (authenticated visit.remote id ∷ cipher_search b ∷ deadline_events
                ++ (opened (get_ip_info_from_addr svc.text svc.ip2info visit.remote).0 ∷ w.log)))
  unfolding after_auth serve
  serve_one_accepted w w' id session e =
      let (f, (b, l)) =
        authenticate_frame svc visit.remote (started w) w' (accepted id session) e in
      let (r, w'', q, i, s, m) =
        after_request_outcome _ id (visit.read_request session w'.conn.input)
          (authenticated visit.remote id ∷ w'.log) refl in
      (b, w''.metrics, handle_auth w w' w'' (accepted id session) r e q ∙ (rw (i, s, m, l) refl))
