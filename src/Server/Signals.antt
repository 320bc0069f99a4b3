-- ===== src/Server/Signals.antt =====
-- cmd/outline-ss-server/main.go: `RunSSServer`, which loads the configuration once and then again at each
-- SIGHUP. What `readConfig` returns each time is given.
use outline_ss_server.Prelude.{
  ℕ, ◌≡◌, refl, ap, sym, ◌⊎◌, inl, inr, true, false, Option, none, some, List, [], ◌∷◌,
  Option-cases,
}
use mathlib.Core.Path.{subst}
use outline_ss_server.Prelude.Maps.{nat_eq, get, keys, Once}
use outline_ss_server.Net.GoError.{GoError, wrapped}
use outline_ss_server.Server.{
  KeyConfig, SsPort, Server, Env, returned, failed, crashed, load_config,
}
use outline_ss_server.Server.Changes.{has_key, entries_of}
use outline_ss_server.Server.Load.{Ranges, Promised, load_config-Promised}
use outline_ss_server.Server.Sound.{Sound}
use outline_ss_server.Server.Grants.{Grants}
use outline_ss_server.Server.Reload.{bad_key, load_config-Sound, load_config-refused}
use outline_ss_server.Server.Outcome.{load_config-returned}

abbrev pub new_server : {Key : Type 0} → Server Key
new_server = record { ports = []; sockets = []; next_handle = 0; num_access_keys = (0, 0) }

module _ {Key : Type 0} (env : Env Key) where
  -- The loop over the signals: an error is logged, and the loop goes on.
  unfoldable pub on_signals : List (GoError ⊎ List KeyConfig) → Server Key → Server Key
  unfolding load_config
  on_signals [] s = s
  on_signals (config ∷ configs) s = on_signals configs (load_config env config s).1

  -- The server after some signals, or the error that the first load ends with; `none` is a crash.
  unfoldable pub run_ss_server :
      GoError ⊎ List KeyConfig → List (GoError ⊎ List KeyConfig) → Option (GoError ⊎ Server Key)
  unfolding on_signals
  run_ss_server config signals =
      let (ending, s) = load_config env config new_server in
      elim ending [
        | returned ↦ some (inr (on_signals signals s))
        | failed e ↦ some (inl (wrapped "failed configure server" e))
        | crashed ↦ none
      ]

  -- The last configuration that could be read and whose keys all have a cipher.
  unfoldable pub last_good : List (GoError ⊎ List KeyConfig) → List KeyConfig → List KeyConfig
  last_good [] ks = ks
  last_good (inl e ∷ configs) ks = last_good configs ks
  last_good (inr new ∷ configs) ks = elim (bad_key env new) [
    | none ↦ last_good configs new
    | some e ↦ last_good configs ks
  ]

  -- A port is served if the configuration has keys for it, and then with these keys.
  unfoldable pub Serves : List KeyConfig → ℕ → Option (SsPort Key) → Type 0
  Serves ks p none = has_key p ks ≡ false
  Serves ks p (some a) = (has_key p ks ≡ true) × (a.cipher_list ≡ entries_of env p ks)

  Promised-Serves :
      (ks : List KeyConfig) (p : ℕ) (before after : Option (SsPort Key))
      → Promised env ks p before after
      → Serves ks p after
  unfolding Promised Serves
  Promised-Serves ks p before none h = h
  Promised-Serves ks p none (some a) h = h
  Promised-Serves ks p (some b) (some a) (t, e) = (t, ap (λ (x : SsPort Key). x.cipher_list) e)

  -- What a load keeps: the sockets in order, and each port served as the last good configuration says.
  record Kept (ks : List KeyConfig) (s : Server Key) : Type 0 where
    sound : Sound s
    serves : (p : ℕ) → Serves ks p (get p s.ports)

  load-Kept :
      (r : Ranges env) (g : Grants env) (ks : List KeyConfig) (s : Server Key)
      → Sound s
      → bad_key env ks ≡ none
      → Kept ks (load_config env (inr ks) s).1
  load-Kept r g ks s sound good =
      let done = load_config-returned env r g ks s sound good in
      record {
        sound = load_config-Sound env r ks s sound done;
        serves = λ p.
            Promised-Serves ks p (get p s.ports) (get p (load_config env (inr ks) s).1.ports)
              (load_config-Promised env r ks s p sound.once done);
      }

  on_signals-Kept :
      (r : Ranges env) (g : Grants env) (configs : List (GoError ⊎ List KeyConfig))
      (ks : List KeyConfig) (s : Server Key)
      → Kept ks s
      → Kept (last_good configs ks) (on_signals configs s)
  unfolding on_signals last_good
  on_signals-Kept r g [] ks s k = k
  on_signals-Kept r g (inl e ∷ configs) ks s k =
      subst (λ x. Kept (last_good configs ks) (on_signals configs x.1))
        (sym ((load_config-refused env s).0 e)) (on_signals-Kept r g configs ks s k)
  on_signals-Kept r g (inr new ∷ configs) ks s k = elim (Option-cases (bad_key env new)) [
    | inl good ↦
        rw (good, last_good)
          (on_signals-Kept r g configs new (load_config env (inr new) s).1
            (load-Kept r g new s k.sound good))
    | inr (e, bad) ↦
        rw (bad, last_good)
          (subst (λ x. Kept (last_good configs ks) (on_signals configs x.1))
            (sym ((load_config-refused env s).1 new e bad)) (on_signals-Kept r g configs ks s k))
  ]

  new-Sound : Sound (new_server {Key = Key})
  unfolding get keys Once
  new-Sound = record {
    tidy = record { opened = λ p a proto e. cc; owned = λ h k e. cc; below = λ h k e. cc };
    once = tt;
  }

  -- If the first configuration has a cipher for each key, then the server starts, and after any signals
  -- each port is served exactly if the last good configuration has keys for it, with these keys in their
  -- order: a configuration that cannot be read or used changes nothing, a later one mends it, and no load
  -- crashes. This is for a system that grants the sockets of ports that it has none open for.
  pub run_ss_server-Serves :
      (r : Ranges env) (g : Grants env) (ks : List KeyConfig)
      (configs : List (GoError ⊎ List KeyConfig))
      → bad_key env ks ≡ none
      → (s : Server Key) × (run_ss_server (inr ks) configs ≡ some (inr s))
        × ((p : ℕ) → Serves (last_good configs ks) p (get p s.ports))
  unfolding run_ss_server
  run_ss_server-Serves r g ks configs good =
      let first = load-Kept r g ks new_server new-Sound good in
      let s = (load_config env (inr ks) new_server).1 in
      (
        on_signals configs s,
        rw (load_config-returned env r g ks new_server new-Sound good, run_ss_server) refl,
        (on_signals-Kept r g configs ks s first).serves,
      )
