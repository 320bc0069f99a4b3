-- ===== src/Program/Errors.antt =====
-- How the program of cmd/outline-ss-server/main.go fails to start.
use mathlib.Core.Path.{subst}
use text.Mathlib.Text.{◌==◌ as str_eq}
use outline_ss_server.Prelude.{
  ℕ, ◌≡◌, refl, sym, ◌∙◌, ◌⊎◌, inl, inr, String, Option, none, some, List, Bool-cases, Option-cases,
}
use outline_ss_server.Net.GoError.{GoError, wrapped}
use outline_ss_server.Replay.{ReplayCache, new_replay_cache}
use outline_ss_server.IpInfo.Mmdb.{MmdbIpInfoMap}
use outline_ss_server.Metrics.{OutlineMetrics}
use outline_ss_server.Server.{KeyConfig, Server, Env, failed, load_config}
use outline_ss_server.Server.Reload.{bad_key, load_config-refused}
use outline_ss_server.Server.Signals.{new_server, run_ss_server}
use outline_ss_server.Program.{
  Flags, Disk, Libraries, read_config, parse_config, Running, terminated, exit_of, serve,
  serve_with, main,
}
use outline_ss_server.Program.Life.{Starts, serve_cached, serve_with_maps}

read_cases : {A B : Type 0} (o : A ⊎ B) → ((a : A) × (o ≡ inl a)) ⊎ ((b : B) × (o ≡ inr b))
read_cases (inl a) = inl (a, refl)
read_cases (inr b) = inr (b, refl)

-- A file that cannot be read, and one that cannot be parsed, have errors of their own.
pub read_config_errors :
    (unmarshal : List ℕ → GoError ⊎ List KeyConfig) (filename : String) (disk : Disk)
    → ((e : GoError)
        → disk filename ≡ inl e
        → read_config unmarshal filename disk ≡ inl (wrapped "failed to read config" e))
      × ((data_read : List ℕ) (e : GoError)
          → disk filename ≡ inr data_read
          → unmarshal data_read ≡ inl e
          → read_config unmarshal filename disk ≡ inl (wrapped "failed to parse config" e))
unfolding read_config parse_config
read_config_errors unmarshal filename disk =
    (λ e h. rw (h, read_config) refl, λ d e h k. rw (h, read_config) (rw (k, parse_config) refl))

module _ {Key : Type 0} (env : Env Key) where
  -- A first configuration that cannot be read or used: `RunSSServer` returns the error of the load.
  run_failed :
      (c : GoError ⊎ List KeyConfig) (cs : List (GoError ⊎ List KeyConfig)) (e : GoError)
      (s : Server Key)
      → load_config env c new_server ≡ (failed e, s)
      → run_ss_server env c cs ≡ some (inl (wrapped "failed configure server" e))
  unfolding run_ss_server
  run_failed c cs e s h = rw (h, run_ss_server) refl

  pub run_unreadable :
      (e : GoError) (cs : List (GoError ⊎ List KeyConfig))
      → run_ss_server env (inl e) cs
        ≡ some (inl (wrapped "failed configure server" (wrapped "failed to load config" e)))
  run_unreadable e cs =
      run_failed (inl e) cs _ new_server ((load_config-refused env new_server).0 e)

  pub run_unusable :
      (ks : List KeyConfig) (e : GoError) (cs : List (GoError ⊎ List KeyConfig))
      → bad_key env ks ≡ some e
      → run_ss_server env (inr ks) cs
        ≡ some
            (inl (wrapped "failed configure server" (wrapped "failed to create encryption key" e)))
  run_unusable ks e cs h =
      run_failed (inr ks) cs _ new_server ((load_config-refused env new_server).1 ks e h)

module _ {Key : Type 0} (env : Env Key) (lib : Libraries) (version : String) where
  -- The configuration is readable and usable if `RunSSServer` returns a server.
  run_needs :
      (flags : Flags) (m : OutlineMetrics) (cache : ReplayCache) (c : GoError ⊎ List KeyConfig)
      (cs : List (GoError ⊎ List KeyConfig)) (run : Running Key)
      → exit_of flags m cache (run_ss_server env c cs) ≡ terminated run
      → (ks : List KeyConfig) × (c ≡ inr ks) × (bad_key env ks ≡ none)
  run_needs flags m cache (inl e) cs run h =
      cc (subst (λ o. exit_of flags m cache o ≡ terminated run) (run_unreadable env e cs) h)
  run_needs flags m cache (inr ks) cs run h = elim (Option-cases (bad_key env ks)) [
    | inl good ↦ (ks, refl, good)
    | inr (e, bad) ↦
        cc (subst (λ o. exit_of flags m cache o ≡ terminated run) (run_unusable env ks e cs bad) h)
  ]

  serve_needs :
      (flags : Flags) (m : OutlineMetrics) (disk : Disk) (disks : List Disk) (run : Running Key)
      → serve env lib version flags m disk disks ≡ terminated run
      → (cache : ReplayCache) × (ks : List KeyConfig) × (new_replay_cache flags.replay_history
          ≡ some cache)
        × (read_config lib.unmarshal flags.config_file disk ≡ inr ks)
        × (bad_key env ks ≡ none)
  unfolding serve
  serve_needs flags m disk disks run h =
      elim (Option-cases (new_replay_cache flags.replay_history)) [
        | inl beyond ↦ cc (rw (beyond, serve) at h)
        | inr (cache, e) ↦
            let (ks, reads, usable) =
              run_needs flags m cache _ _ run
                (sym (serve_cached env lib version flags m disk disks cache e) ∙ h) in
            (cache, ks, e, reads, usable)
      ]

  maps_needed :
      (flags : Flags) (disk : Disk) (disks : List Disk) (p : MmdbIpInfoMap × Option GoError)
      (run : Running Key)
      → serve_with env lib version flags disk disks p ≡ terminated run
      → p.1 ≡ none
  maps_needed flags disk disks (m, none) run h = refl
  maps_needed flags disk disks (m, some e) run h = cc

  -- The program runs only if the flags and files let it start: without a configuration's name, or
  -- with one that cannot be read, parsed or used, with a database that does not open, or with a replay
  -- history beyond its bound, it ends before it serves.
  pub main-Starts :
      (flags : Flags) (disk : Disk) (disks : List Disk) (run : Running Key)
      → main env lib version flags disk disks ≡ terminated run
      → (ks : List KeyConfig) × Starts env lib version flags disk ks
  unfolding main
  main-Starts flags disk disks run h = elim (Bool-cases flags.version) [
    | inl asked ↦ cc (rw (asked, main) at h)
    | inr wanted ↦ elim (Bool-cases (str_eq flags.config_file "")) [
      | inl nameless ↦ cc (rw (wanted, nameless, main) at h)
      | inr named ↦
          let h' = rw (wanted, named, main) at h in
          let located = maps_needed flags disk disks _ run h' in
          let (cache, ks, remembers, reads, usable) =
            serve_needs flags _ disk disks run
              (sym (serve_with_maps env lib version flags disk disks _ located) ∙ h') in
          (
            ks,
            record {
              wanted = wanted;
              named = named;
              located = located;
              cache = cache;
              remembers = remembers;
              reads = reads;
              usable = usable;
            },
          )
    ]
  ]
