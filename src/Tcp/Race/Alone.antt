-- ===== src/Tcp/Race/Alone.antt =====
-- An authenticator of service/tcp.go that no other connection disturbs.
use outline_ss_server.Prelude.{ℕ, zero, suc, ◌≡◌, refl, Option, List}
use outline_ss_server.Net.Text.{NetAddr}
use outline_ss_server.Tcp.State.{
  World, Outcome, done, panic, next, Service, Read, bytes, short, read_full,
}
use outline_ss_server.Tcp.Auth.{
  KeySearch, AuthResult, remote_ip, find_entry, use_entry, search_bytes, find_access_key, judge,
  authenticate,
}
use outline_ss_server.Tcp.Race.{
  Stage, starting, searching, using, judging, finished, resume, run_stage,
}

module _ {Key : Type 0} (svc : Service Key) (remote : NetAddr) where
  -- The authenticator makes this many steps in a row.
  abbrev run_stages : ℕ → World Key × Stage Key → World Key × Stage Key
  run_stages zero (w, stage) = (w, stage)
  run_stages (suc n) (w, stage) = run_stages n (run_stage svc remote stage w)

  -- A result and a world, in the order of the steps.
  abbrev ended : Outcome (AuthResult Key) × World Key → World Key × Stage Key
  ended (r, w) = (w, finished r)

  rest_of_judge :
      (p : Outcome KeySearch × World Key)
      → run_stages 1 (p.1, resume judging p.0) ≡ ended (next (judge svc) p)
  unfolding run_stage
  rest_of_judge (done s, w) = refl
  rest_of_judge (panic, w) = refl

  rest_of_search :
      (w : World Key) (first : List ℕ) (o : Outcome (Option ℕ))
      → run_stages 2 (w, resume (using first) o)
        ≡ ended (
            next (judge svc) (
              next
                (use_entry svc.shadowsocks
                  (remote_ip svc.parse_addr_port remote)
                  w.ciphers.store
                  first)
                (o, w)))
  unfolding run_stage
  rest_of_search w first (done o) =
      rest_of_judge
        (use_entry svc.shadowsocks (remote_ip svc.parse_addr_port remote) w.ciphers.store first o w)
  rest_of_search w first panic = refl

  rest_of_read :
      (w : World Key) (ciphers : List (Option ℕ)) (r : Outcome Read)
      → run_stages 3 (w, resume (searching ciphers) r)
        ≡ ended (
            next (judge svc) (
              next
                (search_bytes svc.shadowsocks (remote_ip svc.parse_addr_port remote) ciphers)
                (r, w)))
  unfolding run_stage search_bytes
  rest_of_read w ciphers (done (bytes first)) =
      rest_of_search w first (find_entry svc.shadowsocks w.ciphers.store first ciphers)
  rest_of_read w ciphers (done (short e)) = refl
  rest_of_read w ciphers panic = refl

  -- The five steps of an authenticator, one after the other, have the result of the authenticator as
  -- a whole, and leave the same world: the cut into steps changes nothing for a connection alone.
  authenticate-stages :
      (w : World Key)
      → run_stages 5 (w, starting)
        ≡ ((authenticate svc remote w).1, finished (authenticate svc remote w).0)
  unfolding run_stage authenticate find_access_key
  authenticate-stages w = rest_of_read _ _ (read_full 50 w).0
