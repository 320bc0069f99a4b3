-- ===== src/Tunnel/Tests.antt =====
-- Runs of the tunnel time collector of cmd/outline-ss-server/metrics.go.
use outline_ss_server.Prelude.{ℕ, ◌+◌, ◌≡◌, refl, none, List, [], ◌∷◌}
use outline_ss_server.Cipher.{v4, addr_eq}
use outline_ss_server.Tunnel.{
  IpKey, ip_key_eq, new_tunnel_time_collector, Call, start_call, stop_call, collect_call, run,
}
use outline_ss_server.Tunnel.{find}
use outline_ss_server.Tunnel.Counts.{Counts, open_after, run-Counts}
use outline_ss_server.Tunnel.Conserve.{reported, pending, elapsed, run-conserves}

abbrev alice : IpKey
alice = record { ip = v4 (203 ∷ 0 ∷ 113 ∷ 5 ∷ []); access_key = 1 ∷ [] }

abbrev bob : IpKey
bob = record { ip = v4 (203 ∷ 0 ∷ 113 ∷ 6 ∷ []); access_key = 1 ∷ [] }

-- Two connections of one client overlap, and another client uses the same key.
abbrev calls : List (ℕ × Call)
calls =
    (5, start_call alice)
    ∷ (10, start_call alice)
    ∷ (1, start_call bob)
    ∷ (2, stop_call alice)
    ∷ (3, collect_call)
    ∷ (4, stop_call alice)
    ∷ (6, collect_call)
    ∷ []

reported_test :
    reported (1 ∷ []) (run none calls 0 new_tunnel_time_collector).1.tunnel_time_per_key ≡ 35
unfolding run reported ip_key_eq addr_eq
reported_test = refl

run-conserves_example :
    reported (1 ∷ []) (run none calls 0 new_tunnel_time_collector).1.tunnel_time_per_key
      + pending
          (1 ∷ [])
          (run none calls 0 new_tunnel_time_collector).0
          (run none calls 0 new_tunnel_time_collector).1.active_clients
    ≡ elapsed none (1 ∷ []) calls 0 new_tunnel_time_collector
run-conserves_example = run-conserves none (1 ∷ []) calls 0

-- After the first four calls one connection of `alice` is open.
abbrev early : List (ℕ × Call)
early =
    (5, start_call alice) ∷ (10, start_call alice) ∷ (1, start_call bob) ∷ (2, stop_call alice) ∷ []

run-Counts_example :
    Counts 1 (find alice (run none early 0 new_tunnel_time_collector).1.active_clients)
unfolding open_after ip_key_eq addr_eq
run-Counts_example = run-Counts none alice early 0
