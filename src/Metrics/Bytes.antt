-- ===== src/Metrics/Bytes.antt =====
-- The counters of transferred bytes of cmd/outline-ss-server/metrics.go.
use outline_ss_server.Prelude.{
  ℕ, ◌+◌, ◌≡◌, refl, ap, sym, ◌∙◌, String, Bool, true, Option, none, some, List, [], ◌∷◌,
  if◌then◌else◌, arith,
}
use outline_ss_server.Net.Text.{NetText}
use outline_ss_server.Cipher.{Addr}
use outline_ss_server.Server.{Proto}
use outline_ss_server.Tunnel.{IpKey}
use outline_ss_server.IpInfo.{IpInfoMap}
use outline_ss_server.Metrics.{
  Dir, Location, OutlineMetrics, location_of, to_ip_key, track, untrack, set_num_access_keys,
  add_open_tcp_connection, add_authenticated_tcp_connection, add_closed_tcp_connection,
  add_udp_packet_from_client, add_udp_packet_from_target, add_udp_nat_entry, remove_udp_nat_entry,
  add_tcp_probe, add_cipher_search, add_bytes, new_outline_metrics,
}
use outline_ss_server.Metrics.Run.{
  MetricsCall, num_access_keys, open_tcp, authenticated_tcp, closed_tcp, from_client, from_target,
  nat_added, nat_removed, tcp_probe, searched, collected, on_call, run_calls,
}
use outline_ss_server.Metrics.Totals.{
  total, bytes_of, key_of, place_of, sum_of, closed_total, sent_total, received_total,
}

track-data :
    (o : Option IpKey) (t : ℕ) (m : OutlineMetrics) → (track o t m).data_bytes ≡ m.data_bytes
unfolding track
track-data none t m = refl
track-data (some k) t m = refl

untrack-data :
    (o : Option IpKey) (t : ℕ) (m : OutlineMetrics) → (untrack o t m).data_bytes ≡ m.data_bytes
unfolding untrack
untrack-data none t m = refl
untrack-data (some k) t m = refl

track-places :
    (o : Option IpKey) (t : ℕ) (m : OutlineMetrics)
    → (track o t m).data_bytes_per_location ≡ m.data_bytes_per_location
unfolding track
track-places none t m = refl
track-places (some k) t m = refl

untrack-places :
    (o : Option IpKey) (t : ℕ) (m : OutlineMetrics)
    → (untrack o t m).data_bytes_per_location ≡ m.data_bytes_per_location
unfolding untrack
untrack-places none t m = refl
untrack-places (some k) t m = refl

abbrev no_place : Location
no_place = record { country = ""; asn = none }

module _ (text : NetText) (parse_addr : String → Option Addr) (d : Dir) (p : Proto) where
  nothing : (b : Bool) (n : ℕ) → n ≡ (if b then 0 else 0) + n
  nothing b n = ground arith

  call-data :
      (g : List ℕ → Bool) (now : ℕ) (c : MetricsCall) (m : OutlineMetrics)
      → total g d p (on_call text parse_addr now c m).data_bytes
        ≡ (if g (key_of c) then bytes_of d p c else 0) + total g d p m.data_bytes
  unfolding on_call add_open_tcp_connection add_authenticated_tcp_connection
      add_closed_tcp_connection add_udp_packet_from_client add_udp_packet_from_target
      add_udp_nat_entry remove_udp_nat_entry add_tcp_probe add_cipher_search set_num_access_keys
      add_bytes key_of bytes_of
  call-data g now (num_access_keys keys ports) m = nothing (g []) _
  call-data g now (open_tcp info) m = nothing (g []) _
  call-data g now (authenticated_tcp addr key) m =
      ap (total g d p) (track-data (to_ip_key text parse_addr addr key) now m) ∙ nothing (g []) _
  call-data g now (closed_tcp info addr key status b time) m =
      ap (total g d p) (untrack-data (to_ip_key text parse_addr addr key) now _)
      ∙ closed_total g d p key b m.data_bytes
  call-data g now (from_client info key status cp pt) m = sent_total g d p key cp pt m.data_bytes
  call-data g now (from_target info key status tp pc) m =
      received_total g d p key tp pc m.data_bytes
  call-data g now (nat_added addr key) m =
      ap (total g d p) (track-data (to_ip_key text parse_addr addr key) now _) ∙ nothing (g []) _
  call-data g now (nat_removed addr key) m =
      ap (total g d p) (untrack-data (to_ip_key text parse_addr addr key) now _) ∙ nothing (g []) _
  call-data g now (tcp_probe status result port n) m = nothing (g []) _
  call-data g now (searched proto found time) m = nothing (g []) _
  call-data g now collected m = nothing (g []) _

  call-places :
      (g : Location → Bool) (now : ℕ) (c : MetricsCall) (m : OutlineMetrics)
      → total g d p (on_call text parse_addr now c m).data_bytes_per_location
        ≡ (if g (place_of c) then bytes_of d p c else 0) + total g d p m.data_bytes_per_location
  unfolding on_call add_open_tcp_connection add_authenticated_tcp_connection
      add_closed_tcp_connection add_udp_packet_from_client add_udp_packet_from_target
      add_udp_nat_entry remove_udp_nat_entry add_tcp_probe add_cipher_search set_num_access_keys
      add_bytes place_of bytes_of
  call-places g now (num_access_keys keys ports) m = nothing (g no_place) _
  call-places g now (open_tcp info) m = nothing (g no_place) _
  call-places g now (authenticated_tcp addr key) m =
      ap (total g d p) (track-places (to_ip_key text parse_addr addr key) now m)
      ∙ nothing (g no_place) _
  call-places g now (closed_tcp info addr key status b time) m =
      ap (total g d p) (untrack-places (to_ip_key text parse_addr addr key) now _)
      ∙ closed_total g d p (location_of info) b m.data_bytes_per_location
  call-places g now (from_client info key status cp pt) m =
      sent_total g d p (location_of info) cp pt m.data_bytes_per_location
  call-places g now (from_target info key status tp pc) m =
      received_total g d p (location_of info) tp pc m.data_bytes_per_location
  call-places g now (nat_added addr key) m =
      ap (total g d p) (track-places (to_ip_key text parse_addr addr key) now _)
      ∙ nothing (g no_place) _
  call-places g now (nat_removed addr key) m =
      ap (total g d p) (untrack-places (to_ip_key text parse_addr addr key) now _)
      ∙ nothing (g no_place) _
  call-places g now (tcp_probe status result port n) m = nothing (g no_place) _
  call-places g now (searched proto found time) m = nothing (g no_place) _
  call-places g now collected m = nothing (g no_place) _

  -- After any calls, for each direction and protocol, and each set of access keys, the bytes that are
  -- counted for these keys are those from before and those that the calls report for these keys.
  pub run-data :
      (g : List ℕ → Bool) (cs : List (ℕ × MetricsCall)) (m : OutlineMetrics)
      → total g d p (run_calls text parse_addr cs m).data_bytes
        ≡ sum_of key_of g d p cs + total g d p m.data_bytes
  unfolding run_calls sum_of
  run-data g [] m = omega arith
  run-data g ((now, c) ∷ cs) m =
      let rest = run-data g cs (on_call text parse_addr now c m) in
      rest ∙ (rw (call-data g now c m) (ground arith))

  run-places :
      (g : Location → Bool) (cs : List (ℕ × MetricsCall)) (m : OutlineMetrics)
      → total g d p (run_calls text parse_addr cs m).data_bytes_per_location
        ≡ sum_of place_of g d p cs + total g d p m.data_bytes_per_location
  unfolding run_calls sum_of
  run-places g [] m = omega arith
  run-places g ((now, c) ∷ cs) m =
      let rest = run-places g cs (on_call text parse_addr now c m) in
      rest ∙ (rw (call-places g now c m) (ground arith))

  same_sum :
      (cs : List (ℕ × MetricsCall))
      → sum_of key_of (λ _. true) d p cs ≡ sum_of place_of (λ _. true) d p cs
  unfolding sum_of
  same_sum [] = refl
  same_sum ((now, c) ∷ cs) = ap (λ n. bytes_of d p c + n) (same_sum cs)

  -- After any calls on new metrics, for each direction and protocol, as many bytes are counted over all
  -- access keys as over all locations.
  pub run_balance :
      (ip2info : Option IpInfoMap) (cs : List (ℕ × MetricsCall))
      → total
          (λ _. true)
          d
          p
          (run_calls text parse_addr cs (new_outline_metrics ip2info)).data_bytes
        ≡ total
            (λ _. true)
            d
            p
            (run_calls text parse_addr cs (new_outline_metrics ip2info)).data_bytes_per_location
  unfolding total new_outline_metrics
  run_balance ip2info cs =
      run-data (λ _. true) cs (new_outline_metrics ip2info)
      ∙ ap (λ n. n + 0) (same_sum cs)
      ∙ sym (run-places (λ _. true) cs (new_outline_metrics ip2info))
