-- ===== src/Tcp/Serve.antt =====
-- service/tcp.go: `StreamServe`, which accepts connections until the listener is closed. The handlers of
-- its connections run one after the other here.
use outline_ss_server.Prelude.{Bool, true, false, List, [], ◌∷◌}
use outline_ss_server.Net.GoError.{GoError}
use outline_ss_server.Tcp.State.{Conn, World, Service}
use outline_ss_server.Tcp.Handler.{Visit, serve_one}

-- What `accept` returns: a connection, `net.ErrClosed`, or another error.
pub data Accept (Key : Type 0) : Type 0 where
  arrived : Visit Key → Conn → Accept Key
  listener_closed : Accept Key
  accept_failed : GoError → Accept Key

module _ {Key : Type 0} (svc : Service Key) where
  -- The state after the loop, and whether the loop has ended.
  unfoldable pub stream_serve : List (Accept Key) → World Key → World Key × Bool
  unfolding serve_one
  stream_serve [] w = (w, false)
  stream_serve (listener_closed ∷ rest) w = (w, true)
  stream_serve (accept_failed e ∷ rest) w = stream_serve rest w
  stream_serve (arrived visit conn ∷ rest) w =
      stream_serve rest (serve_one svc visit (record w { conn = conn }))
