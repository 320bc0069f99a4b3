-- ===== src/Program/Tests.antt =====
-- Runs of the program of cmd/outline-ss-server/main.go.
use outline_ss_server.Prelude.{
  ℕ, zero, suc, ◌≡◌, refl, ◌⊎◌, inl, inr, true, List, [], ◌∷◌, map, pos,
}
use outline_ss_server.Prelude.Maps.{nat_eq, get}
use outline_ss_server.Net.GoError.{GoError, plain, join}
use outline_ss_server.Replay.{new_replay_cache}
use outline_ss_server.IpInfo.Mmdb.{refused, new_mmdb_ip_info_map}
use outline_ss_server.Server.{KeyConfig}
use outline_ss_server.Server.Signals.{last_good, Serves}
use outline_ss_server.Server.Tests.{
  toy, toy-Ranges, toy-Grants, first_config, second_config, first_good,
}
use outline_ss_server.Program.{
  Flags, default_flags, Disk, Libraries, parse_config, read_config, Running, version_printed,
  usage_printed, terminated, main,
}
use outline_ss_server.Program.Life.{Starts, main-Serves}
use outline_ss_server.Program.Errors.{main-Starts}

-- A file's bytes stand for a configuration; a 0 is no configuration.
abbrev parse : List ℕ → GoError ⊎ List KeyConfig
parse (suc zero ∷ []) = inr first_config
parse (suc (suc zero) ∷ []) = inr second_config
parse _ = inl (plain "yaml: line 1: did not find expected node content")

abbrev lib : Libraries
lib = record {
  unmarshal = parse;
  open_country = λ path. refused (plain "no such file or directory");
  open_asn = λ path. refused (plain "no such file or directory");
}

abbrev holding : List ℕ → Disk
holding bs filename = inr bs

abbrev missing_file : Disk
missing_file filename = inl (plain "open config.yml: no such file or directory")

abbrev flags : Flags
flags = record default_flags { config_file = "config.yml"; replay_history = pos 10_000 }

flags-Starts : Starts toy lib "1.4.0" flags (holding (1 ∷ [])) first_config
unfolding new_replay_cache read_config parse_config new_mmdb_ip_info_map join
flags-Starts = record {
  wanted = refl;
  named = refl;
  located = refl;
  cache = record { capacity = pos 10_000; active = []; archive = [] };
  remembers = refl;
  reads = refl;
  usable = first_good;
}

-- The file is broken, then missing, then mended.
abbrev reloads : List Disk
reloads = holding (0 ∷ []) ∷ missing_file ∷ holding (2 ∷ []) ∷ []

-- What runs at the end.
program :
    (run : Running ℕ) × (main toy lib "1.4.0" flags (holding (1 ∷ [])) reloads ≡ terminated run)
program =
    let (run, e, _, _) =
      main-Serves toy lib "1.4.0" toy-Ranges toy-Grants flags (holding (1 ∷ [])) reloads
        first_config flags-Starts in
    (run, e)

main-Serves_example :
    (run : Running ℕ) × (main toy lib "1.4.0" flags (holding (1 ∷ [])) reloads ≡ terminated run)
    × ((p : ℕ)
        → Serves toy
            (last_good toy (map (read_config parse "config.yml") reloads) first_config)
            p
            (get p run.server.ports))
    × (run.replay_cache.capacity ≡ pos 10_000)
main-Serves_example =
    main-Serves toy lib "1.4.0" toy-Ranges toy-Grants flags (holding (1 ∷ [])) reloads first_config
      flags-Starts

main-Starts_example : (ks : List KeyConfig) × Starts toy lib "1.4.0" flags (holding (1 ∷ [])) ks
main-Starts_example =
    main-Starts toy lib "1.4.0" flags (holding (1 ∷ [])) reloads program.0 program.1

usage_test : main toy lib "1.4.0" default_flags (holding (1 ∷ [])) [] ≡ usage_printed
unfolding main
usage_test = refl

version_test :
    main toy lib "1.4.0" (record flags { version = true }) missing_file [] ≡ version_printed
unfolding main
version_test = refl
