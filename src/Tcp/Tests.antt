-- ===== src/Tcp/Tests.antt =====
-- Runs of the TCP service of service/tcp.go, with a toy cipher that opens a packet by its first byte.
use outline_ss_server.Prelude.{
  ℕ, zero, suc, ap, List, length, replicate, ◌≡◌, refl, Bool, true, false, none, some, [], ◌∷◌,
  arith, take,
}
use outline_ss_server.Net.GoError.{GoError, plain, new_connection_error}
use outline_ss_server.Net.Private.{is_private_address, require_public_ip}
use outline_ss_server.Net.Ranges.{expected_status4}
use outline_ss_server.Net.Ip.{is_global_unicast}
use outline_ss_server.IpInfo.{get_ip_info_from_addr}
use outline_ss_server.Salt.{Random, marking, is_server_salt}
use outline_ss_server.Salt.Marks.{get_salt_marking}
use outline_ss_server.Udp.Layout.{length-replicate}
use outline_ss_server.Tcp.Reflection.{serve_one_reflected}
use outline_ss_server.Replay.{add}
use outline_ss_server.Cipher.{
  addr_eq, fill, matches_ip, snapshot_for_client_ip, mark_used_by_client_ip,
}
use outline_ss_server.Tcp.State.{
  ProxyMetrics, no_bytes, done, read_full, client_closed, closed, probe, drained, cipher_search,
  set_read_deadline, set_deadline, opened, authenticated, relayed, dialed,
}
use outline_ss_server.Tcp.Auth.{
  accepted, remote_ip, find_entry, find_access_key, check_replay, judge, authenticate,
}
use outline_ss_server.Tcp.Dial.{dial_stream, dial_stream-public}
use outline_ss_server.Tcp.Handler.{serve_one, drain_err_to_string, relay_error}
use outline_ss_server.Tcp.Search.{
  find_access_key_first, first_match, opens, search_order, search_result,
}
use outline_ss_server.Tcp.Replays.{authenticate_accepted}
use outline_ss_server.Tcp.Relay.{
  Action, copy_to_target, close_read_client, copy_to_client, close_write_client, close_read_target,
  exchange, close_target, is, Interleaves, stop, left, right, meet, from_client_actions,
  from_target_actions, drain_client, close_write_target,
}
use outline_ss_server.Tcp.Trace.{serve_one-refused, serve_one_accepted}
use outline_ss_server.Tcp.Samples.{
  toy_ss, toy, svc, entries, world, client, good, unknown, reflected, client_ip, session, dialer,
  dialer-Controlled, dials, visit,
}

search_test :
    find_entry toy_ss entries (take 50 good) (some 1 ∷ some 2 ∷ some 3 ∷ []) ≡ done (some 2)
unfolding find_entry
search_test = refl

find_access_key_first_example :
    (find_access_key toy_ss client_ip (world good)).0
    ≡ done (
        search_result toy_ss (world good).ciphers (take 50 good) (
          first_match
            (opens toy_ss entries (take 50 good))
            (search_order toy_ss (world good).ciphers client_ip)))
unfolding matches_ip addr_eq
find_access_key_first_example =
    find_access_key_first toy_ss client_ip (world good) (omega arith)
      (omega arith, (omega arith, (omega arith, tt)))

-- The random source of the sample's server.
abbrev random_bytes : Random
random_bytes zero = some []
random_bytes (suc n) = some (2 ∷ replicate n 0)

length-random_bytes : (n : ℕ) (bs : List ℕ) → random_bytes n ≡ some bs → length bs ≡ n
length-random_bytes zero bs h = let same : [] ≡ bs = ground arith in rw (← same) refl
length-random_bytes (suc n) bs h =
    let same : 2 ∷ replicate n 0 ≡ bs = ground arith in rw (← same) (ap suc (length-replicate n 0))

serve_one_reflected_example :
    (b : Bool) × ((serve_one svc visit (world reflected)).log
      ≡ client_closed
        ∷ client_closed
        ∷ closed
            (get_ip_info_from_addr svc.text svc.ip2info client).0
            client
            (2 ∷ [])
            "ERR_REPLAY_SERVER"
            (record no_bytes { client_proxy = 60 })
        ∷ probe "ERR_REPLAY_SERVER" (drain_err_to_string none) 443 60
        ∷ drained
        ∷ cipher_search b
        ∷ set_read_deadline (some 120)
        ∷ set_deadline 120
        ∷ opened (get_ip_info_from_addr svc.text svc.ip2info client).0
        ∷ [])
    × ((serve_one svc visit (world reflected)).replay ≡ (world reflected).replay)
unfolding find_entry snapshot_for_client_ip fill matches_ip remote_ip
serve_one_reflected_example =
    serve_one_reflected svc visit random_bytes (world reflected) 2 [] (replicate 32 0)
      (take 32 reflected) (replicate 28 28) (λ k m. length-replicate 20 (length m))
      length-random_bytes refl
      (get_salt_marking toy (λ k m. length-replicate 20 (length m)) random_bytes []
        (replicate 32 0))
      refl (omega arith) refl (omega arith, refl)

accepts : (authenticate svc client (world good)).0 ≡ done (accepted (2 ∷ []) session)
unfolding authenticate find_entry snapshot_for_client_ip fill matches_ip remote_ip is_server_salt
    find_access_key read_full add check_replay mark_used_by_client_ip
accepts = refl

authenticate_accepted_example :
    ((entries 2).id ≡ (entries 2).id)
    × ((entries 2).crypto_key ≡ (entries 2).crypto_key)
    × (take 50 good ≡ take 50 good)
    × (is_server_salt toy (marking []) (take 32 good) ≡ false)
    × ((add (world good).replay (2 ∷ []) (take 32 good)).0 ≡ true)
    × ((authenticate svc client (world good)).1.replay
        ≡ (add (world good).replay (2 ∷ []) (take 32 good)).1)
    × ((authenticate svc client (world good)).1.ciphers
        ≡ mark_used_by_client_ip (world good).ciphers 2 (remote_ip svc.parse_addr_port client))
unfolding find_entry snapshot_for_client_ip fill matches_ip remote_ip
authenticate_accepted_example =
    authenticate_accepted svc client (world good) 2 (2 ∷ []) session (omega arith, refl) accepts

dial_stream-public_example : expected_status4 8 8 8 8 ≡ none
dial_stream-public_example =
    dial_stream-public dialer (λ ip. "") "example.com" "dns.example:443" 8 8 8 8 dialer-Controlled
      (omega arith) (omega arith) (omega arith) (omega arith) refl dials

abbrev broken : GoError
broken = plain "cipher: message authentication failed"

abbrev one_by_one : List Action
one_by_one =
    copy_to_target ∷ copy_to_client ∷ drain_client ∷ close_read_client ∷ close_write_target
    ∷ close_write_client ∷ close_read_target ∷ exchange ∷ close_target ∷ []

run : Interleaves (from_client_actions (some broken)) from_target_actions one_by_one
unfolding from_client_actions from_target_actions is
run = left copy_to_target refl (
    right copy_to_client refl (
      left drain_client refl (
        left close_read_client refl (
          left close_write_target refl (
            right close_write_client refl
              (right close_read_target refl (meet (right close_target refl stop))))))))

serve_one-refused_example :
    (b : Bool) × ((serve_one svc visit (world unknown)).log
      ≡ client_closed
        ∷ client_closed
        ∷ closed
            (get_ip_info_from_addr svc.text svc.ip2info client).0
            client
            []
            "ERR_CIPHER"
            (record no_bytes { client_proxy = 60 })
        ∷ probe "ERR_CIPHER" "eof" 443 60
        ∷ drained
        ∷ cipher_search b
        ∷ set_read_deadline (some 120)
        ∷ set_deadline 120
        ∷ opened (get_ip_info_from_addr svc.text svc.ip2info client).0
        ∷ [])
unfolding authenticate judge find_access_key read_full find_entry snapshot_for_client_ip fill
    matches_ip remote_ip drain_err_to_string new_connection_error
serve_one-refused_example =
    serve_one-refused svc visit (world unknown) _ []
      (new_connection_error "ERR_CIPHER" "Failed to find a valid cipher"
        (some (plain "could not find valid TCP cipher")))
      refl

serve_one_accepted_example :
    (b : Bool) × (bytes : ProxyMetrics) × ((serve_one svc visit (world good)).log
      ≡ client_closed
        ∷ client_closed
        ∷ closed (get_ip_info_from_addr svc.text svc.ip2info client).0 client (2 ∷ []) "OK" bytes
        ∷ relayed
        ∷ dialed "example.com:443"
        ∷ set_read_deadline none
        ∷ authenticated client (2 ∷ [])
        ∷ cipher_search b
        ∷ set_read_deadline (some 120)
        ∷ set_deadline 120
        ∷ opened (get_ip_info_from_addr svc.text svc.ip2info client).0
        ∷ [])
unfolding authenticate judge find_access_key read_full find_entry snapshot_for_client_ip fill
    matches_ip remote_ip is_server_salt check_replay add mark_used_by_client_ip dial_stream
    require_public_ip is_global_unicast is_private_address relay_error
serve_one_accepted_example = serve_one_accepted svc visit (world good) _ (2 ∷ []) session refl
