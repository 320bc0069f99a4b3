-- ===== src/Tunnel/Counts.antt =====
-- Who is in the map of cmd/outline-ss-server/metrics.go: the clients with open connections.
use outline_ss_server.Prelude.{
  ℕ, ◌+◌, ◌-◌, ◌<◌, ◌≡◌, refl, sym, ◌∙◌, inl, inr, Option, none, some, List, [], ◌∷◌, leb,
  if◌then◌else◌, arith, Bool-cases, Option-cases,
}
use outline_ss_server.IpInfo.{IpInfoMap}
use outline_ss_server.Tunnel.{
  IpKey, ip_key_eq, ActiveClient, TunnelTimeCollector, new_tunnel_time_collector, find, collect,
  start_connection, stop_connection, Call, start_call, stop_call, collect_call, call, run,
}
use outline_ss_server.Tunnel.Entries.{
  key_of_eq, find-replace, find-delete, find-reset, Unique-replace, Unique-delete, Unique-reset,
  Unique,
}

-- The connections of a client that are open after some calls, if a number was open before; a stop
-- without a start closes nothing.
unfoldable pub open_after : IpKey → List (ℕ × Call) → ℕ → ℕ
open_after key [] n = n
open_after key ((dt, start_call k) ∷ xs) n =
    open_after key xs (if ip_key_eq k key then n + 1 else n)
open_after key ((dt, stop_call k) ∷ xs) n = open_after key xs (if ip_key_eq k key then n - 1 else n)
open_after key ((dt, collect_call) ∷ xs) n = open_after key xs n

-- An entry of the map that counts a number of connections.
unfoldable pub Counts : ℕ → Option ActiveClient → Type 0
Counts n none = n ≡ 0
Counts n (some cl) = (cl.conn_count ≡ n) × (0 < n)

-- The invariant of the map, on one client.
unfoldable pub Holds : IpKey → ℕ → TunnelTimeCollector → Type 0
Holds key n c = Counts n (find key c.active_clients) × Unique c.active_clients

same-Counts : (n m : ℕ) (o p : Option ActiveClient) → n ≡ m → o ≡ p → Counts n o → Counts m p
same-Counts n m o p e f h = rw (sym e, sym f) h

pub start-Holds :
    (ip2info : Option IpInfoMap) (k key : IpKey) (t n : ℕ) (c : TunnelTimeCollector)
    → Holds key n c
    → Holds key (if ip_key_eq k key then n + 1 else n) (start_connection ip2info k t c)
unfolding Holds start_connection find Unique Counts
start-Holds ip2info k key t n c (h, u) = elim (Option-cases (find k c.active_clients)) [
  | inl absent ↦ elim (Bool-cases (ip_key_eq k key)) [
    | inl e ↦
        let none_here : find key c.active_clients ≡ none = rw (key_of_eq k key e) at absent in
        let zero_open : n ≡ 0 = (rw none_here at h) in
        rw (absent, start_connection, e) ((omega arith, omega arith), (absent, u))
    | inr ne ↦ rw (absent, start_connection, ne) (h, (absent, u))
  ]
  | inr (cl, found) ↦ elim (Bool-cases (ip_key_eq k key)) [
    | inl e ↦
        let here : find key c.active_clients ≡ some cl = rw (key_of_eq k key e) at found in
        let h' : (cl.conn_count ≡ n) × (0 < n) = rw here at h in
        rw (found, start_connection)
          (
            same-Counts (n + 1) _ (some (record cl { conn_count = cl.conn_count + 1 })) _
                (rw e refl)
                (sym (
                  find-replace k key (record cl { conn_count = cl.conn_count + 1 }) c.active_clients
                  ∙ (rw (e, here) refl)))
                (omega (arith, h'.0), omega arith),
            Unique-replace k _ c.active_clients u,
          )
    | inr ne ↦
        rw (found, start_connection)
          (
            same-Counts n _ (find key c.active_clients) _ (rw ne refl)
                (sym (
                  find-replace k key (record cl { conn_count = cl.conn_count + 1 }) c.active_clients
                  ∙ (rw ne refl)))
                h,
            Unique-replace k _ c.active_clients u,
          )
  ]
]

pub stop-Holds :
    (k key : IpKey) (t n : ℕ) (c : TunnelTimeCollector)
    → Holds key n c
    → Holds key (if ip_key_eq k key then n - 1 else n) (stop_connection k t c)
unfolding Holds stop_connection Counts
stop-Holds k key t n c (h, u) = elim (Option-cases (find k c.active_clients)) [
  | inl absent ↦ elim (Bool-cases (ip_key_eq k key)) [
    | inl e ↦
        let none_here : find key c.active_clients ≡ none = rw (key_of_eq k key e) at absent in
        let zero_open : n ≡ 0 = (rw none_here at h) in
        rw (absent, stop_connection)
          (same-Counts n _ none _ (rw e (omega (arith, zero_open))) (sym none_here) zero_open, u)
    | inr ne ↦ rw (absent, stop_connection, ne) (h, u)
  ]
  | inr (cl, found) ↦ elim (Bool-cases (leb (cl.conn_count - 1) 0)) [
    | inl last ↦
        rw (found, stop_connection, last)
          (
            elim (Bool-cases (ip_key_eq k key)) [
              | inl e ↦
                  let here : find key c.active_clients ≡ some cl =
                    rw (key_of_eq k key e) at found in
                  let h' : (cl.conn_count ≡ n) × (0 < n) = rw here at h in
                  same-Counts 0 _ none _ (rw e (ground (arith, h'.0)))
                    (sym (find-delete k key c.active_clients u ∙ (rw e refl))) refl
              | inr ne ↦
                  same-Counts n _ (find key c.active_clients) _ (rw ne refl)
                    (sym (find-delete k key c.active_clients u ∙ (rw ne refl))) h
            ],
            Unique-delete k c.active_clients u,
          )
    | inr more ↦
        rw (found, stop_connection, more)
          (
            elim (Bool-cases (ip_key_eq k key)) [
              | inl e ↦
                  let here : find key c.active_clients ≡ some cl =
                    rw (key_of_eq k key e) at found in
                  let h' : (cl.conn_count ≡ n) × (0 < n) = rw here at h in
                  same-Counts (n - 1) _ (some (record cl { conn_count = cl.conn_count - 1 })) _
                    (rw e refl)
                    (sym (
                      find-replace k key (record cl { conn_count = cl.conn_count - 1 })
                        c.active_clients
                      ∙ (rw (e, here) refl)))
                    (omega (arith, h'.0), ground (arith, h'.0))
              | inr ne ↦
                  same-Counts n _ (find key c.active_clients) _ (rw ne refl)
                    (sym (
                      find-replace k key (record cl { conn_count = cl.conn_count - 1 })
                        c.active_clients
                      ∙ (rw ne refl)))
                    h
            ],
            Unique-replace k _ c.active_clients u,
          )
  ]
]

collect-Holds :
    (key : IpKey) (t n : ℕ) (c : TunnelTimeCollector) → Holds key n c → Holds key n (collect t c)
unfolding Holds collect Counts
collect-Holds key t n c (h, u) = elim (Option-cases (find key c.active_clients)) [
  | inl absent ↦ (
    same-Counts n n none _ refl (sym (find-reset key t c.active_clients ∙ (rw absent refl)))
        (rw absent at h),
    Unique-reset t c.active_clients u,
  )
  | inr (cl, found) ↦ (
    same-Counts n n (some (record cl { start_time = t })) _ refl
        (sym (find-reset key t c.active_clients ∙ (rw found refl))) (rw found at h),
    Unique-reset t c.active_clients u,
  )
]

run-Holds :
    (ip2info : Option IpInfoMap) (key : IpKey) (xs : List (ℕ × Call)) (t n : ℕ)
    (c : TunnelTimeCollector)
    → Holds key n c
    → Holds key (open_after key xs n) (run ip2info xs t c).1
unfolding run call open_after
run-Holds ip2info key [] t n c h = h
run-Holds ip2info key ((dt, start_call k) ∷ xs) t n c h =
    run-Holds ip2info key xs (t + dt) _ _ (start-Holds ip2info k key (t + dt) n c h)
run-Holds ip2info key ((dt, stop_call k) ∷ xs) t n c h =
    run-Holds ip2info key xs (t + dt) _ _ (stop-Holds k key (t + dt) n c h)
run-Holds ip2info key ((dt, collect_call) ∷ xs) t n c h =
    run-Holds ip2info key xs (t + dt) _ _ (collect-Holds key (t + dt) n c h)

-- After any calls on a new collector, a client is in the map exactly if it has open connections, and
-- its entry counts them.
pub run-Counts :
    (ip2info : Option IpInfoMap) (key : IpKey) (xs : List (ℕ × Call)) (t : ℕ)
    → Counts
        (open_after key xs 0)
        (find key (run ip2info xs t new_tunnel_time_collector).1.active_clients)
unfolding Holds Unique Counts find
run-Counts ip2info key xs t = (run-Holds ip2info key xs t 0 new_tunnel_time_collector (refl, tt)).0
