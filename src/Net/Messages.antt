-- ===== src/Net/Messages.antt =====
-- The status that `ensureConnectionError` of service/tcp.go reports.
use outline_ss_server.Prelude.{◌≡◌, refl, Bool, String, none, some, List, [], ◌∷◌, arith}
use outline_ss_server.Net.GoError.{
  GoError, plain, net_error, wrapped, ConnectionError, to_error, as_connection_error,
  ensure_connection_error, new_connection_error,
}

-- An error under any number of layers of context.
abbrev pub wrap_all : List String → GoError → GoError
wrap_all [] e = e
wrap_all (t ∷ ts) e = wrapped t (wrap_all ts e)

as-to_error : (c : ConnectionError) → as_connection_error (to_error c) ≡ some c
unfolding as_connection_error
as-to_error c = ground arith

as-wrap_all :
    (ts : List String) (e : GoError) → as_connection_error (wrap_all ts e) ≡ as_connection_error e
unfolding as_connection_error
as-wrap_all [] e = refl
as-wrap_all (t ∷ ts) e = as-wrap_all ts e

as-plain : (text : String) → as_connection_error (plain text) ≡ none
unfolding as_connection_error
as-plain text = refl

as-net_error :
    (timeout : Bool) (text : String) → as_connection_error (net_error timeout text) ≡ none
unfolding as_connection_error
as-net_error timeout text = refl

-- A connection error is found, unchanged, under any number of layers of context. A plain error or
-- a network error under such layers becomes the cause of an error with the fallback status and
-- message. No error stays none.
pub ensure_connection_error-wrap_all :
    (ts : List String) (c : ConnectionError) (timeout : Bool) (text status msg : String)
    → (ensure_connection_error (some (wrap_all ts (to_error c))) status msg ≡ some c)
      × (ensure_connection_error (some (wrap_all ts (plain text))) status msg
          ≡ some (new_connection_error status msg (some (wrap_all ts (plain text)))))
      × (ensure_connection_error (some (wrap_all ts (net_error timeout text))) status msg
          ≡ some (new_connection_error status msg (some (wrap_all ts (net_error timeout text)))))
      × (ensure_connection_error none status msg ≡ none)
unfolding ensure_connection_error
ensure_connection_error-wrap_all ts c timeout text status msg = ground (
  arith,
  as-wrap_all ts (to_error c),
  as-to_error c,
  as-wrap_all ts (plain text),
  as-plain text,
  as-wrap_all ts (net_error timeout text),
  as-net_error timeout text,
)
