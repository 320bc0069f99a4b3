-- ===== src/Tcp/OneTime.antt =====
-- A handshake is accepted once: the replay protection of service/tcp.go over the connections of a port.
use mathlib.Core.Path.{subst}
use outline_ss_server.Prelude.{
  ℕ, zero, suc, ◌+◌, ◌≤◌, ◌≡◌, inl, inr, true, some, List, [], ◌∷◌, take, arith,
}
use outline_ss_server.Replay.{ReplayCache, add, pre_hash}
use outline_ss_server.Replay.Recall.{Fits}
use outline_ss_server.Replay.Guard.{
  Guards, Guards-weaker, Guards-add, Guards-starts, Guards-refuses,
}
use outline_ss_server.Tcp.State.{Conn, World, Service, done}
use outline_ss_server.Tcp.Auth.{Session, accepted, authenticate}
use outline_ss_server.Tcp.Handler.{Visit, serve_one}
use outline_ss_server.Tcp.Trace.{started}
use outline_ss_server.Tcp.Serve.{Accept, arrived, listener_closed, accept_failed, stream_serve}
use outline_ss_server.Tcp.History.{authenticate-Asked, serve_one-replay}

-- The connections that a listener gives, whatever else it returns.
unfoldable pub arrivals : {Key : Type 0} → List (Accept Key) → ℕ
arrivals [] = 0
arrivals (arrived visit conn ∷ rest) = arrivals rest + 1
arrivals (listener_closed ∷ rest) = 0
arrivals (accept_failed e ∷ rest) = arrivals rest

module _ {Key : Type 0} (svc : Service Key) where
  visit-Guards :
      (visit : Visit Key) (w : World Key) (n k h : ℕ)
      → Guards n (suc k) h w.replay
      → Guards n k h (serve_one svc visit w).replay
  visit-Guards visit w n k h g =
      elim (authenticate-Asked svc visit.remote (started svc visit w)).effect [
        | inl kept ↦ rw (serve_one-replay svc visit w, kept) (Guards-weaker (omega arith) g)
        | inr (id, salt, added) ↦ rw (serve_one-replay svc visit w, added) (Guards-add id salt g)
      ]

  serve-Guards :
      (rest : List (Accept Key)) (w : World Key) (n k h : ℕ)
      → arrivals rest ≤ k
      → Guards n k h w.replay
      → (m : ℕ) × Guards n m h (stream_serve svc rest w).0.replay
  unfolding stream_serve arrivals
  serve-Guards [] w n k h l g = (k, g)
  serve-Guards (listener_closed ∷ rest) w n k h l g = (k, g)
  serve-Guards (accept_failed e ∷ rest) w n k h l g = serve-Guards rest w n k h l g
  serve-Guards (arrived visit conn ∷ rest) w n zero h l g = absurd (omega arith)
  serve-Guards (arrived visit conn ∷ rest) w n (suc k) h l g =
      let w₁ : World Key = record w { conn = conn } in
      serve-Guards rest (serve_one svc visit w₁) n k h (omega arith) (visit-Guards visit w₁ n k h g)

  -- A handshake's identity: the key's ID and the salt.
  abbrev pub salt_of_session : Session Key → List ℕ
  salt_of_session session = take (svc.shadowsocks.salt_size session.key) session.first_bytes

  -- On a port with a cache of capacity n, if a connection is authenticated, then after at most n further
  -- connections, from any clients and with any outcome, and whatever errors the listener returns between
  -- them, no connection is authenticated under the same key ID with the same salt.
  pub accepted_once :
      (n : ℕ) (c : ReplayCache) (w : World Key) (visit visit' : Visit Key)
      (rest : List (Accept Key)) (conn : Conn) (id : List ℕ) (session session' : Session Key)
      → w.replay ≡ some c
      → Fits n c
      → (authenticate svc visit.remote (started svc visit w)).0 ≡ done (accepted id session)
      → arrivals rest ≤ n
      → let later = record (stream_serve svc rest (serve_one svc visit w)).0 { conn = conn } in
        (authenticate svc visit'.remote (started svc visit' later)).0 ≡ done (accepted id session')
        → ¬ (salt_of_session session' ≡ salt_of_session session)
  accepted_once n c w visit visit' rest conn id session session' held fits first l second same =
      let salt = salt_of_session session in
      let after = record (stream_serve svc rest (serve_one svc visit w)).0 { conn = conn } in
      let (new, added) =
        (authenticate-Asked svc visit.remote (started svc visit w)).new id session first in
      let starts : Guards n n (pre_hash id salt) (serve_one svc visit w).replay =
        rw (serve_one-replay svc visit w, added) (Guards-starts id salt held fits) in
      let (m, last) = serve-Guards rest (serve_one svc visit w) n n (pre_hash id salt) l starts in
      let (again, _) =
        (authenticate-Asked svc visit'.remote (started svc visit' after)).new id session' second in
      cc (subst (λ x. (add after.replay id x).0 ≡ true) same again, Guards-refuses id salt last)
