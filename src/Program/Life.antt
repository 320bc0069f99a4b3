-- ===== src/Program/Life.antt =====
-- The life of the program of cmd/outline-ss-server/main.go, from its flags to the signal that ends it.
use text.Mathlib.Text.{◌==◌ as str_eq}
use outline_ss_server.Prelude.{
  ℕ, ◌≡◌, refl, ap, ◌∙◌, ◌⊎◌, inr, String, false, Option, none, some, List, map,
}
use outline_ss_server.Prelude.Maps.{nat_eq, get}
use outline_ss_server.Net.GoError.{GoError}
use outline_ss_server.Replay.{ReplayCache, new_replay_cache}
use outline_ss_server.Replay.Bounds.{new-empty}
use outline_ss_server.IpInfo.Mmdb.{MmdbIpInfoMap, new_mmdb_ip_info_map, get_ip_info}
use outline_ss_server.Metrics.{
  OutlineMetrics, new_outline_metrics, set_build_info, set_num_access_keys,
}
use outline_ss_server.Server.{KeyConfig, Env}
use outline_ss_server.Server.Load.{Ranges}
use outline_ss_server.Server.Grants.{Grants}
use outline_ss_server.Server.Reload.{bad_key}
use outline_ss_server.Server.Signals.{run_ss_server, last_good, Serves, run_ss_server-Serves}
use outline_ss_server.Program.{
  Flags, Disk, Libraries, read_config, Running, terminated, exit_of, serve, serve_with, main,
}

module _ {Key : Type 0} (env : Env Key) (lib : Libraries) (version : String) where
  -- The flags and the files let the program start: a configuration is named, and can be read and used,
  -- the databases open, and the replay history is within its bound.
  pub record Starts (flags : Flags) (disk : Disk) (ks : List KeyConfig) : Type 0 where
    pub wanted : flags.version ≡ false
    pub named : str_eq flags.config_file "" ≡ false
    pub located :
        (new_mmdb_ip_info_map lib.open_country lib.open_asn flags.ip_country_db flags.ip_asn_db).1
        ≡ none
    pub cache : ReplayCache
    pub remembers : new_replay_cache flags.replay_history ≡ some cache
    pub reads : read_config lib.unmarshal flags.config_file disk ≡ inr ks
    pub usable : bad_key env ks ≡ none

  abbrev pub configs_of : Flags → List Disk → List (GoError ⊎ List KeyConfig)
  configs_of flags disks = map (read_config lib.unmarshal flags.config_file) disks

  pub serve_cached :
      (flags : Flags) (m : OutlineMetrics) (disk : Disk) (disks : List Disk) (cache : ReplayCache)
      → new_replay_cache flags.replay_history ≡ some cache
      → serve env lib version flags m disk disks
        ≡ exit_of flags m cache (
            run_ss_server env
              (read_config lib.unmarshal flags.config_file disk)
              (configs_of flags disks))
  unfolding serve
  serve_cached flags m disk disks cache e = rw (e, serve) refl

  -- The metrics when `RunSSServer` is called.
  abbrev first_metrics : Flags → OutlineMetrics
  first_metrics flags = set_build_info version (
      new_outline_metrics (
        some (
          get_ip_info (
            some
              (new_mmdb_ip_info_map lib.open_country lib.open_asn flags.ip_country_db
                flags.ip_asn_db).0))))

  pub serve_with_maps :
      (flags : Flags) (disk : Disk) (disks : List Disk) (p : MmdbIpInfoMap × Option GoError)
      → p.1 ≡ none
      → serve_with env lib version flags disk disks p
        ≡ serve env lib version flags
            (set_build_info version (new_outline_metrics (some (get_ip_info (some p.0)))))
            disk
            disks
  serve_with_maps flags disk disks (m, none) e = refl
  serve_with_maps flags disk disks (m, some x) e = cc

  main_runs :
      (flags : Flags) (disk : Disk) (disks : List Disk) (ks : List KeyConfig)
      (st : Starts flags disk ks)
      → main env lib version flags disk disks
        ≡ exit_of flags
            (first_metrics flags)
            st.cache
            (run_ss_server env (inr ks) (configs_of flags disks))
  unfolding main
  main_runs flags disk disks ks st =
      rw (st.wanted, st.named)
        (serve_with_maps flags disk disks _ st.located
          ∙ serve_cached flags (first_metrics flags) disk disks st.cache st.remembers
          ∙ ap
              (λ c.
                exit_of flags (first_metrics flags) st.cache
                  (run_ss_server env c (configs_of flags disks)))
              st.reads)

  -- With flags and files that let it start, the program runs until it is told to terminate, whatever the
  -- configuration file holds at each SIGHUP: then each port is served exactly if the last configuration
  -- that could be read, parsed and used has keys for it, with these keys in their order, and the replay
  -- cache has the capacity that the flag asks for. This is for a system that grants the sockets of
  -- ports that it has none open for.
  pub main-Serves :
      (r : Ranges env) (g : Grants env) (flags : Flags) (disk : Disk) (disks : List Disk)
      (ks : List KeyConfig)
      → Starts flags disk ks
      → (run : Running Key) × (main env lib version flags disk disks ≡ terminated run)
        × ((p : ℕ)
            → Serves env
                (last_good env (map (read_config lib.unmarshal flags.config_file) disks) ks)
                p
                (get p run.server.ports))
        × (run.replay_cache.capacity ≡ flags.replay_history)
  main-Serves r g flags disk disks ks st =
      let (s, runs, serves) = run_ss_server-Serves env r g ks (configs_of flags disks) st.usable in
      (
        record {
          server = s;
          nat_timeout = flags.nat_timeout;
          metrics =
              set_num_access_keys s.num_access_keys.0 s.num_access_keys.1 (first_metrics flags);
          replay_cache = st.cache;
        },
        main_runs flags disk disks ks st ∙ ap (exit_of flags (first_metrics flags) st.cache) runs,
        serves,
        (new-empty flags.replay_history st.cache st.remembers).0,
      )
