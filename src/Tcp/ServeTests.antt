-- ===== src/Tcp/ServeTests.antt =====
-- Runs of the accept loop of service/tcp.go.
use outline_ss_server.Prelude.{ℕ, ◌≡◌, refl, true, none, List, [], ◌∷◌, pos, replicate, arith}
use outline_ss_server.Net.GoError.{plain}
use outline_ss_server.Net.Ip.{is_global_unicast}
use outline_ss_server.Net.Private.{is_private_address, require_public_ip}
use outline_ss_server.Salt.{is_server_salt}
use outline_ss_server.Replay.{ReplayCache, add, pre_hash}
use outline_ss_server.Cipher.{snapshot_for_client_ip, fill, matches_ip, mark_used_by_client_ip}
use outline_ss_server.Tcp.State.{Conn, read_full, drain}
use outline_ss_server.Tcp.Auth.{
  Session, remote_ip, find_entry, find_access_key, check_replay, judge, authenticate,
}
use outline_ss_server.Tcp.Dial.{dial_stream}
use outline_ss_server.Tcp.Serve.{Accept, arrived, listener_closed, accept_failed, stream_serve}
use outline_ss_server.Tcp.OneTime.{arrivals, salt_of_session, accepted_once}
use outline_ss_server.Tcp.Samples.{svc, visit, world, good, session}

abbrev cache : ReplayCache
cache = record { capacity = pos 10; active = []; archive = [] }

-- A second handshake under the same key.
abbrev other : Conn
other = record { input = 2 ∷ 1 ∷ replicate 58 0; ending = none }

abbrev other_session : Session ℕ
other_session = record session { first_bytes = 2 ∷ 1 ∷ replicate 48 0 }

-- Between the two, the listener fails once, and the first client comes again.
abbrev between : List (Accept ℕ)
between = accept_failed (plain "too many open files") ∷ arrived visit (world good).conn ∷ []

loop_test : (stream_serve svc (listener_closed ∷ between) (world good)).1 ≡ true
unfolding stream_serve
loop_test = refl

accepted_once_example : ¬ (salt_of_session svc other_session ≡ salt_of_session svc session)
unfolding arrivals authenticate judge find_access_key read_full find_entry snapshot_for_client_ip
    fill matches_ip remote_ip is_server_salt check_replay add mark_used_by_client_ip stream_serve
    dial_stream require_public_ip is_global_unicast is_private_address pre_hash drain
accepted_once_example =
    accepted_once svc 10 cache (world good) visit visit between other (2 ∷ []) session other_session
      refl
      (record { size = refl; positive = omega arith; active = omega arith; archive = omega arith })
      refl (omega arith) refl
