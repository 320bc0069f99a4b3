-- ===== src/Program.antt =====
-- cmd/outline-ss-server/main.go: `readConfig` and `main`, with the parts that the other files model. The
-- flags are given as `flag.Parse` leaves them. Left out are the logging and the HTTP server of the metrics.
pub mod Life
pub mod Errors
mod Tests
use text.Mathlib.Text.{◌==◌ as str_eq}
use outline_ss_server.Prelude.{
  ℕ, ◌*◌, ◌⊎◌, inl, inr, String, Bool, true, false, Option, none, some, List, map, ℤ, pos,
  if◌then◌else◌,
}
use outline_ss_server.Net.GoError.{GoError, wrapped}
use outline_ss_server.Replay.{ReplayCache, new_replay_cache}
use outline_ss_server.IpInfo.Mmdb.{MmdbIpInfoMap, Opened, new_mmdb_ip_info_map, get_ip_info}
use outline_ss_server.Metrics.{
  OutlineMetrics, new_outline_metrics, set_build_info, set_num_access_keys,
}
use outline_ss_server.Server.{KeyConfig, Server, Env}
use outline_ss_server.Server.Signals.{run_ss_server}

-- Durations are in seconds.
abbrev pub default_nat_timeout : ℕ
default_nat_timeout = 5 * 60

pub record Flags : Type 0 where
  pub config_file : String
  pub ip_country_db : String
  pub ip_asn_db : String
  pub nat_timeout : ℕ
  pub replay_history : ℤ
  pub version : Bool

-- The flags of a program that is called without any.
abbrev pub default_flags : Flags
default_flags = record {
  config_file = "";
  ip_country_db = "";
  ip_asn_db = "";
  nat_timeout = default_nat_timeout;
  replay_history = pos 0;
  version = false;
}

-- `os.ReadFile`, at one time.
abbrev pub Disk : Type 0
Disk = String → GoError ⊎ List ℕ

-- `yaml.Unmarshal` into a `Config`, and `geoip2.Open` by what the file is to hold.
pub record Libraries : Type 0 where
  pub unmarshal : List ℕ → GoError ⊎ List KeyConfig
  pub open_country : String → Opened String
  pub open_asn : String → Opened ℕ

unfoldable pub parse_config :
    (List ℕ → GoError ⊎ List KeyConfig) → List ℕ → GoError ⊎ List KeyConfig
parse_config unmarshal config_data = elim (unmarshal config_data) [
  | inl err ↦ inl (wrapped "failed to parse config" err)
  | inr keys ↦ inr keys
]

unfoldable pub read_config :
    (List ℕ → GoError ⊎ List KeyConfig) → String → Disk → GoError ⊎ List KeyConfig
unfolding parse_config
read_config unmarshal filename disk = elim (disk filename) [
  | inl err ↦ inl (wrapped "failed to read config" err)
  | inr config_data ↦ parse_config unmarshal config_data
]

-- What `RunSSServer` returns, with the fields of `SSServer` that no load changes.
pub record Running (Key : Type 0) : Type 0 where
  pub server : Server Key
  pub nat_timeout : ℕ
  pub metrics : OutlineMetrics
  pub replay_cache : ReplayCache

-- How the program ends: after the version or the usage is printed, with a fatal log message, with a
-- panic, or after a signal to terminate, with what was running then.
pub data Exit (Key : Type 0) : Type 0 where
  version_printed usage_printed panicked : Exit Key
  fatal : String → GoError → Exit Key
  terminated : Running Key → Exit Key

-- What `main` does with what `RunSSServer` returns; `none` is a crash. The number of keys and ports
-- in the metrics is that of the last load.
abbrev pub exit_of :
    {Key : Type 0} → Flags → OutlineMetrics → ReplayCache → Option (GoError ⊎ Server Key) → Exit Key
exit_of flags m cache none = panicked
exit_of flags m cache (some (inl err)) = fatal "Server failed to start" err
exit_of flags m cache (some (inr s)) = terminated (record {
  server = s;
  nat_timeout = flags.nat_timeout;
  metrics = set_num_access_keys s.num_access_keys.0 s.num_access_keys.1 m;
  replay_cache = cache;
})

module _ {Key : Type 0} (env : Env Key) (lib : Libraries) (version : String) where
  -- `RunSSServer`: the cache is made before the configuration is loaded. The disk is read at the start, and
  -- again at each SIGHUP.
  unfoldable pub serve : Flags → OutlineMetrics → Disk → List Disk → Exit Key
  unfolding read_config
  serve flags m disk disks = elim (new_replay_cache flags.replay_history) [
    | none ↦ panicked
    | some cache ↦ exit_of flags m cache (
        run_ss_server env (read_config lib.unmarshal flags.config_file disk)
          (map (read_config lib.unmarshal flags.config_file) disks))
  ]

  -- After the databases of client locations are opened.
  abbrev pub serve_with : Flags → Disk → List Disk → MmdbIpInfoMap × Option GoError → Exit Key
  serve_with flags disk disks (ip2info, some e) = fatal "Could create IP info map" e
  serve_with flags disk disks (ip2info, none) =
      serve flags (set_build_info version (new_outline_metrics (some (get_ip_info (some ip2info)))))
        disk disks

  unfoldable pub main : Flags → Disk → List Disk → Exit Key
  unfolding serve
  main flags disk disks =
      if flags.version
      then version_printed
      else (if str_eq flags.config_file ""
          then usage_printed
          else serve_with flags disk disks (
              new_mmdb_ip_info_map lib.open_country lib.open_asn flags.ip_country_db
                flags.ip_asn_db))
