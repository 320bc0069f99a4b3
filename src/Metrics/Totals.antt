-- ===== src/Metrics/Totals.antt =====
-- The values of the byte counters of cmd/outline-ss-server/metrics.go.
use outline_ss_server.Prelude.{
  ℕ, ◌+◌, ◌≡◌, Bool, true, false, ◌&&◌, none, List, [], ◌∷◌, if◌then◌else◌, arith,
}
use outline_ss_server.Server.{Proto, tcp, udp}
use outline_ss_server.Tcp.State.{ProxyMetrics}
use outline_ss_server.Metrics.{
  Dir, client_proxy, proxy_target, target_proxy, proxy_client, Location, add_if_non_zero,
  location_of,
}
use outline_ss_server.Metrics.Run.{MetricsCall, closed_tcp, from_client, from_target}

unfoldable same_dir : Dir → Dir → Bool
same_dir client_proxy client_proxy = true
same_dir proxy_target proxy_target = true
same_dir target_proxy target_proxy = true
same_dir proxy_client proxy_client = true
same_dir _ _ = false

unfoldable same_proto : Proto → Proto → Bool
same_proto tcp tcp = true
same_proto udp udp = true
same_proto _ _ = false

-- The value of the series of a direction and a protocol whose last labels pass a test, together.
unfoldable pub total {ℓ} :
    {L : Type ℓ} → (L → Bool) → Dir → Proto → List ((Dir × Proto × L) × ℕ) → ℕ
unfolding same_dir same_proto
total g d p [] = 0
total g d p (((e, q, l), n) ∷ vec) =
    let rest = total g d p vec in if same_dir e d && same_proto q p && g l then n + rest else rest

-- The bytes of a TCP connection, of a packet from a client, and of one from a target.
unfoldable pub closed_bytes : Dir → Proto → ProxyMetrics → ℕ
closed_bytes client_proxy tcp b = b.client_proxy
closed_bytes proxy_target tcp b = b.proxy_target
closed_bytes target_proxy tcp b = b.target_proxy
closed_bytes proxy_client tcp b = b.proxy_client
closed_bytes d udp b = 0

unfoldable pub sent_bytes : Dir → Proto → ℕ → ℕ → ℕ
sent_bytes client_proxy udp cp pt = cp
sent_bytes proxy_target udp cp pt = pt
sent_bytes d p cp pt = 0

unfoldable pub received_bytes : Dir → Proto → ℕ → ℕ → ℕ
received_bytes target_proxy udp tp pc = tp
received_bytes proxy_client udp tp pc = pc
received_bytes d p tp pc = 0

-- The bytes that a call reports for a direction and a protocol.
unfoldable pub bytes_of : Dir → Proto → MetricsCall → ℕ
unfolding closed_bytes sent_bytes received_bytes
bytes_of d p (closed_tcp info addr key status bytes time) = closed_bytes d p bytes
bytes_of d p (from_client info key status cp pt) = sent_bytes d p cp pt
bytes_of d p (from_target info key status tp pc) = received_bytes d p tp pc
bytes_of d p c = 0

-- The access key and the location that a call reports bytes for.
unfoldable pub key_of : MetricsCall → List ℕ
key_of (closed_tcp info addr key status bytes time) = key
key_of (from_client info key status cp pt) = key
key_of (from_target info key status tp pc) = key
key_of c = []

unfoldable pub place_of : MetricsCall → Location
place_of (closed_tcp info addr key status bytes time) = location_of info
place_of (from_client info key status cp pt) = location_of info
place_of (from_target info key status tp pc) = location_of info
place_of c = record { country = ""; asn = none }

-- What some calls report for a direction and a protocol, of the calls whose last label passes a test.
unfoldable pub sum_of :
    {L : Type 0} → (MetricsCall → L) → (L → Bool) → Dir → Proto → List (ℕ × MetricsCall) → ℕ
sum_of label g d p [] = 0
sum_of label g d p ((now, c) ∷ cs) =
    let rest = sum_of label g d p cs in if g (label c) then bytes_of d p c + rest else rest

module _ {L : Type 0} (g : L → Bool) (d : Dir) (p : Proto) where
  total-add :
      (n : ℕ) (vec : List ((Dir × Proto × L) × ℕ)) (e : Dir) (q : Proto) (l : L)
      → total g d p (add_if_non_zero n vec (e, q, l))
        ≡ (if same_dir e d && same_proto q p && g l then n else 0) + total g d p vec
  unfolding total add_if_non_zero
  total-add n vec e q l = ground arith

pub closed_total :
    {L : Type 0} (g : L → Bool) (d : Dir) (p : Proto) (l : L) (b : ProxyMetrics)
    (vec : List ((Dir × Proto × L) × ℕ))
    → total g d p (
        add_if_non_zero b.proxy_client
          (add_if_non_zero b.target_proxy
            (add_if_non_zero b.proxy_target
              (add_if_non_zero b.client_proxy vec (client_proxy, tcp, l))
              (proxy_target, tcp, l))
            (target_proxy, tcp, l))
          (proxy_client, tcp, l))
      ≡ (if g l then closed_bytes d p b else 0) + total g d p vec
unfolding closed_bytes same_dir same_proto
closed_total g d p l b vec =
    rw (total-add g d p, total-add g d p, total-add g d p, total-add g d p) (cases d p)
  where
    cases :
        (d : Dir) (p : Proto)
        → (if same_dir proxy_client d && same_proto tcp p && g l then b.proxy_client else 0)
            + ((if same_dir target_proxy d && same_proto tcp p && g l then b.target_proxy else 0)
                + ((if same_dir proxy_target d && same_proto tcp p && g l
                      then b.proxy_target
                      else 0)
                    + ((if same_dir client_proxy d && same_proto tcp p && g l
                          then b.client_proxy
                          else 0)
                        + total g d p vec)))
          ≡ (if g l then closed_bytes d p b else 0) + total g d p vec
    cases client_proxy tcp = ground arith
    cases proxy_target tcp = ground arith
    cases target_proxy tcp = ground arith
    cases proxy_client tcp = ground arith
    cases client_proxy udp = ground arith
    cases proxy_target udp = ground arith
    cases target_proxy udp = ground arith
    cases proxy_client udp = ground arith

pub sent_total :
    {L : Type 0} (g : L → Bool) (d : Dir) (p : Proto) (l : L) (cp pt : ℕ)
    (vec : List ((Dir × Proto × L) × ℕ))
    → total g d p
        (add_if_non_zero pt (add_if_non_zero cp vec (client_proxy, udp, l)) (proxy_target, udp, l))
      ≡ (if g l then sent_bytes d p cp pt else 0) + total g d p vec
unfolding sent_bytes same_dir same_proto
sent_total g d p l cp pt vec = rw (total-add g d p, total-add g d p) (cases d p)
  where
    cases :
        (d : Dir) (p : Proto)
        → (if same_dir proxy_target d && same_proto udp p && g l then pt else 0)
            + ((if same_dir client_proxy d && same_proto udp p && g l then cp else 0)
                + total g d p vec)
          ≡ (if g l then sent_bytes d p cp pt else 0) + total g d p vec
    cases client_proxy udp = ground arith
    cases proxy_target udp = ground arith
    cases target_proxy udp = ground arith
    cases proxy_client udp = ground arith
    cases client_proxy tcp = ground arith
    cases proxy_target tcp = ground arith
    cases target_proxy tcp = ground arith
    cases proxy_client tcp = ground arith

pub received_total :
    {L : Type 0} (g : L → Bool) (d : Dir) (p : Proto) (l : L) (tp pc : ℕ)
    (vec : List ((Dir × Proto × L) × ℕ))
    → total g d p
        (add_if_non_zero pc (add_if_non_zero tp vec (target_proxy, udp, l)) (proxy_client, udp, l))
      ≡ (if g l then received_bytes d p tp pc else 0) + total g d p vec
unfolding received_bytes same_dir same_proto
received_total g d p l tp pc vec = rw (total-add g d p, total-add g d p) (cases d p)
  where
    cases :
        (d : Dir) (p : Proto)
        → (if same_dir proxy_client d && same_proto udp p && g l then pc else 0)
            + ((if same_dir target_proxy d && same_proto udp p && g l then tp else 0)
                + total g d p vec)
          ≡ (if g l then received_bytes d p tp pc else 0) + total g d p vec
    cases client_proxy udp = ground arith
    cases proxy_target udp = ground arith
    cases target_proxy udp = ground arith
    cases proxy_client udp = ground arith
    cases client_proxy tcp = ground arith
    cases proxy_target tcp = ground arith
    cases target_proxy tcp = ground arith
    cases proxy_client tcp = ground arith
