-- ===== src/Tcp/RaceTests.antt =====
-- Authenticators of service/tcp.go that run at the same time.
use outline_ss_server.Prelude.{ℕ, ◌≡◌, refl, none, some, List, [], ◌∷◌, ◌++◌, pos, take, arith}
use outline_ss_server.Salt.{is_server_salt}
use outline_ss_server.Replay.{ReplayCache, new_replay_cache, add, add_hash, pre_hash}
use outline_ss_server.Cipher.{snapshot_for_client_ip, fill, matches_ip, mark_used_by_client_ip}
use outline_ss_server.Tcp.State.{read_full}
use outline_ss_server.Tcp.Auth.{remote_ip, find_entry, use_entry, check_replay, judge}
use outline_ss_server.Tcp.Race.{
  Move, Port, at_index, arrive, go, run_stage, move, run_moves, acceptance, replay_checks,
}
use outline_ss_server.Tcp.Race.Window.{opened, race_accepted_once}
use outline_ss_server.Tcp.Samples.{svc, world, client, good}

abbrev cache : ReplayCache
cache = record { capacity = pos 10; active = []; archive = [] }

abbrev port : Port ℕ
port = opened (world good).ciphers cache

-- A client and a copy of its bytes arrive together; both are decrypted before either is checked.
abbrev before : List Move
before =
    arrive client (world good).conn
    ∷ go 0
    ∷ arrive client (world good).conn
    ∷ go 1
    ∷ go 1
    ∷ go 0
    ∷ go 0
    ∷ go 1
    ∷ go 0
    ∷ go 1
    ∷ []

first_test : acceptance svc (run_moves svc port before) 0 ≡ some (2 ∷ [], take 32 good)
unfolding acceptance run_moves move run_stage at_index judge read_full find_entry
    snapshot_for_client_ip fill matches_ip remote_ip is_server_salt check_replay add use_entry
    mark_used_by_client_ip add_hash pre_hash
first_test = refl

second_test : acceptance svc (run_moves svc port (before ++ (go 0 ∷ []))) 1 ≡ none
unfolding acceptance run_moves move run_stage at_index judge read_full find_entry
    snapshot_for_client_ip fill matches_ip remote_ip is_server_salt check_replay add use_entry
    mark_used_by_client_ip add_hash pre_hash
second_test = refl

race_accepted_once_example :
    ¬ (acceptance svc (run_moves svc port (before ++ (go 0 ∷ []))) 1 ≡ some (2 ∷ [], take 32 good))
unfolding replay_checks new_replay_cache
race_accepted_once_example =
    race_accepted_once svc (world good).ciphers cache 10 0 1 before [] (2 ∷ []) (take 32 good) refl
      (omega arith) first_test (omega arith)
