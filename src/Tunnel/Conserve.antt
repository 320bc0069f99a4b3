-- ===== src/Tunnel/Conserve.antt =====
-- The tunnel time that cmd/outline-ss-server/metrics.go reports is the time that passes.
use outline_ss_server.Prelude.{
  ℕ, ◌+◌, ◌-◌, ◌*◌, ◌≤◌, ◌≡◌, refl, ap, sym, ◌∙◌, inl, inr, true, Option, none, some, List, [], ◌∷◌,
  leb, if◌then◌else◌, map, arith, Bool-cases, Option-cases,
}
use native.Mathlib.Nat.{zero-add}
use outline_ss_server.Net.Ip.{bytes_eq, eq_of_bytes_eq}
use outline_ss_server.IpInfo.{IpInfoMap}
use outline_ss_server.Tunnel.{
  IpKey, ip_key_eq, ActiveClient, TunnelTimeCollector, new_tunnel_time_collector, find, replace,
  delete, report_tunnel_time, report_all, reset, collect, start_connection, stop_connection, Call,
  start_call, stop_call, collect_call, call, run,
}

-- An amount that counts for an access key only if the label is that key.
pub at_key : List ℕ → List ℕ → ℕ → ℕ
at_key k label n = if bytes_eq label k then n else 0

-- The value of the counter of an access key.
unfoldable pub reported : List ℕ → List (List ℕ × ℕ) → ℕ
unfolding at_key
reported k [] = 0
reported k ((label, n) ∷ rs) = at_key k label n + reported k rs

-- The time of the active clients of an access key that is yet to be reported.
pub pending : List ℕ → ℕ → List (IpKey × ActiveClient) → ℕ
unfolding at_key
pending k t [] = 0
pending k t ((key, cl) ∷ es) = at_key k key.access_key (t - cl.start_time) + pending k t es

-- How many clients of an access key are active.
pub clients : List ℕ → List (IpKey × ActiveClient) → ℕ
unfolding at_key
clients k [] = 0
clients k ((key, cl) ∷ es) = at_key k key.access_key 1 + clients k es

-- The time that passes in a run, times the number of clients of an access key that are active then.
pub elapsed : Option IpInfoMap → List ℕ → List (ℕ × Call) → ℕ → TunnelTimeCollector → ℕ
unfolding clients call
elapsed ip2info k [] t c = 0
elapsed ip2info k ((dt, x) ∷ xs) t c =
    dt * clients k c.active_clients + elapsed ip2info k xs (t + dt) (call ip2info x (t + dt) c)

Started : ℕ → List (IpKey × ActiveClient) → Type 0
Started t [] = Unit
Started t ((key, cl) ∷ es) = (cl.start_time ≤ t) × Started t es

same_label : (a b : IpKey) → ip_key_eq a b ≡ true → a.access_key ≡ b.access_key
unfolding ip_key_eq
same_label a b h = eq_of_bytes_eq a.access_key b.access_key (ground arith)

pending_later :
    (k : List ℕ) (t dt : ℕ) (es : List (IpKey × ActiveClient))
    → Started t es
    → (pending k (t + dt) es ≡ pending k t es + dt * clients k es) × Started (t + dt) es
unfolding pending clients at_key Started
pending_later k t dt [] h = (omega arith, tt)
pending_later k t dt ((key, cl) ∷ es) (h, hs) =
    let (p, s) = pending_later k t dt es hs in
    elim (Bool-cases (bytes_eq key.access_key k)) [
      | inl mine ↦ rw (mine, p) (ground arith, (omega arith, s))
      | inr other ↦ rw (other, p) (ground arith, (omega arith, s))
    ]

pending-replace :
    (k : List ℕ) (t : ℕ) (key : IpKey) (new cl : ActiveClient) (es : List (IpKey × ActiveClient))
    → find key es ≡ some cl
    → new.start_time ≡ cl.start_time
    → Started t es
    → (pending k t (replace key new es) ≡ pending k t es) × Started t (replace key new es)
unfolding find replace pending Started
pending-replace k t key new cl [] e s h = cc
pending-replace k t key new cl ((x, c) ∷ es) e s (h, hs) = elim (Bool-cases (ip_key_eq x key)) [
  | inl here ↦
      let same : c.start_time ≡ new.start_time =
        ap (λ (o : Option ActiveClient). elim o [ none ↦ 0 | some y ↦ y.start_time ]) (rw here at e)
        ∙ sym s in
      rw (here, same) (refl, (rw same at h, hs))
  | inr there ↦
      let (p, q) = pending-replace k t key new cl es (rw there at e) s hs in
      rw (there, p) (refl, (h, q))
]

pending-delete :
    (k : List ℕ) (t : ℕ) (key : IpKey) (cl : ActiveClient) (es : List (IpKey × ActiveClient))
    → find key es ≡ some cl
    → Started t es
    → (at_key k key.access_key (t - cl.start_time) + pending k t (delete key es) ≡ pending k t es)
      × Started t (delete key es)
unfolding find delete pending Started
pending-delete k t key cl [] e h = cc
pending-delete k t key cl ((x, c) ∷ es) e (h, hs) = elim (Bool-cases (ip_key_eq x key)) [
  | inl here ↦
      let same : c.start_time ≡ cl.start_time =
        ap (λ (o : Option ActiveClient). elim o [ none ↦ 0 | some y ↦ y.start_time ])
          (rw here at e) in
      rw (here, same, same_label x key here) (refl, hs)
  | inr there ↦
      let (p, q) = pending-delete k t key cl es (rw there at e) hs in
      rw there (ground (arith, p), (h, q))
]

-- What a collector has reported of an access key, and has yet to report.
abbrev owed : List ℕ → ℕ → TunnelTimeCollector → ℕ
owed k t c = reported k c.tunnel_time_per_key + pending k t c.active_clients

pending-reset :
    (k : List ℕ) (t : ℕ) (es : List (IpKey × ActiveClient))
    → (pending k t (map (reset t) es) ≡ 0) × Started t (map (reset t) es)
unfolding pending reset at_key Started
pending-reset k t [] = (refl, tt)
pending-reset k t ((key, cl) ∷ es) =
    let (p, s) = pending-reset k t es in (ground (arith, p), (omega arith, s))

reported-report_all :
    (k : List ℕ) (t : ℕ) (es : List (IpKey × ActiveClient)) (c : TunnelTimeCollector)
    → reported k (report_all es t c).tunnel_time_per_key
      ≡ reported k c.tunnel_time_per_key + pending k t es
unfolding reported report_all pending
reported-report_all k t [] c = omega arith
reported-report_all k t ((key, cl) ∷ es) c =
    omega (arith, reported-report_all k t es (report_tunnel_time key cl t c))

-- A call changes nothing of what is owed at its time.
Kept : List ℕ → ℕ → TunnelTimeCollector → TunnelTimeCollector → Type 0
Kept k t c c' = (owed k t c' ≡ owed k t c) × Started t c'.active_clients

start_connection-Kept :
    (ip2info : Option IpInfoMap) (k : List ℕ) (key : IpKey) (t : ℕ) (c : TunnelTimeCollector)
    → Started t c.active_clients
    → Kept k t c (start_connection ip2info key t c)
unfolding Kept start_connection pending at_key Started
start_connection-Kept ip2info k key t c s = elim (Option-cases (find key c.active_clients)) [
  | inl absent ↦ rw (absent, start_connection) (ground arith, (omega arith, s))
  | inr (cl, found) ↦
      let (p, q) =
        pending-replace k t key (record cl { conn_count = cl.conn_count + 1 }) cl c.active_clients
          found refl s in
      rw (found, start_connection, p) (refl, q)
]

stop_connection-Kept :
    (k : List ℕ) (key : IpKey) (t : ℕ) (c : TunnelTimeCollector)
    → Started t c.active_clients
    → Kept k t c (stop_connection key t c)
unfolding Kept stop_connection reported
stop_connection-Kept k key t c s = elim (Option-cases (find key c.active_clients)) [
  | inl absent ↦ rw (absent, stop_connection) (refl, s)
  | inr (cl, found) ↦ elim (Bool-cases (leb (cl.conn_count - 1) 0)) [
    | inl last ↦
        let (p, q) = pending-delete k t key cl c.active_clients found s in
        rw (found, stop_connection, last) (omega (arith, p), q)
    | inr more ↦
        let (p, q) =
          pending-replace k t key (record cl { conn_count = cl.conn_count - 1 }) cl c.active_clients
            found refl s in
        rw (found, stop_connection, more, p) (refl, q)
  ]
]

collect-Kept :
    (k : List ℕ) (t : ℕ) (c : TunnelTimeCollector)
    → Started t c.active_clients
    → Kept k t c (collect t c)
unfolding Kept collect
collect-Kept k t c s =
    let (p, q) = pending-reset k t c.active_clients in
    (omega (arith, p, reported-report_all k t c.active_clients c), q)

call-Kept :
    (ip2info : Option IpInfoMap) (k : List ℕ) (x : Call) (t : ℕ) (c : TunnelTimeCollector)
    → Started t c.active_clients
    → Kept k t c (call ip2info x t c)
unfolding call
call-Kept ip2info k (start_call key) t c s = start_connection-Kept ip2info k key t c s
call-Kept ip2info k (stop_call key) t c s = stop_connection-Kept k key t c s
call-Kept ip2info k collect_call t c s = collect-Kept k t c s

run-owed :
    (ip2info : Option IpInfoMap) (k : List ℕ) (xs : List (ℕ × Call)) (t : ℕ)
    (c : TunnelTimeCollector)
    → Started t c.active_clients
    → owed k (run ip2info xs t c).0 (run ip2info xs t c).1 ≡ owed k t c + elapsed ip2info k xs t c
unfolding run elapsed Kept
run-owed ip2info k [] t c s = omega arith
run-owed ip2info k ((dt, x) ∷ xs) t c s =
    let (p, s₁) = pending_later k t dt c.active_clients s in
    let (q, s₂) = call-Kept ip2info k x (t + dt) c s₁ in
    omega (arith, run-owed ip2info k xs (t + dt) (call ip2info x (t + dt) c) s₂, p, q)

-- No tunnel time is lost or counted twice: after any calls on a new collector, what the counter of
-- an access key holds and what its active clients are yet to report make up the time that passed,
-- counted once for each client of the key that was active in it.
pub run-conserves :
    (ip2info : Option IpInfoMap) (k : List ℕ) (xs : List (ℕ × Call)) (t : ℕ)
    → reported k (run ip2info xs t new_tunnel_time_collector).1.tunnel_time_per_key
        + pending k
            (run ip2info xs t new_tunnel_time_collector).0
            (run ip2info xs t new_tunnel_time_collector).1.active_clients
      ≡ elapsed ip2info k xs t new_tunnel_time_collector
unfolding Started pending reported
run-conserves ip2info k xs t = run-owed ip2info k xs t new_tunnel_time_collector tt ∙ zero-add _
