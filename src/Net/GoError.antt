-- ===== src/Net/GoError.antt =====
-- net/error.go and `ensureConnectionError` of service/tcp.go, over Go's error values.
use Prim.Native.String
use outline_ss_server.Prelude.{String, Bool, Option, none, some, ltb, if◌then◌else◌}

-- An error value. A `*ConnectionError` has a status, a message and perhaps a cause; a `net.Error`
-- says whether it is a timeout; `wrapped` is `fmt.Errorf` with `%w`, or the `*net.OpError` of a dial;
-- `joined` is what `errors.Join` makes of one or two errors.
pub data GoError : Type 0 where
  plain : String → GoError
  net_error : Bool → String → GoError
  wrapped : String → GoError → GoError
  joined_one : GoError → GoError
  joined : GoError → GoError → GoError
  conn : String → String → GoError
  conn_caused : String → String → GoError → GoError

-- A `*ConnectionError` that is not nil.
pub record ConnectionError : Type 0 where
  pub status : String
  pub message : String
  pub cause : Option GoError

unfoldable pub new_connection_error : String → String → Option GoError → ConnectionError
new_connection_error status message cause = record {
  status = status;
  message = message;
  cause = cause;
}

-- The pointer as a value of the interface `error`.
abbrev pub to_error : ConnectionError → GoError
to_error e = elim e.cause [
  | none ↦ conn e.status e.message
  | some c ↦ conn_caused e.status e.message c
]

abbrev or_else {ℓ} : {A : Type ℓ} → Option A → Option A → Option A
or_else none o = o
or_else (some a) o = some a

-- `errors.As` with a target of type `*ConnectionError`: the first one of the chain.
unfoldable pub as_connection_error : GoError → Option ConnectionError
as_connection_error (plain s) = none
as_connection_error (net_error t s) = none
as_connection_error (wrapped s e) = as_connection_error e
as_connection_error (joined_one e) = as_connection_error e
as_connection_error (joined e f) = or_else (as_connection_error e) (as_connection_error f)
as_connection_error (conn s m) = some (record { status = s; message = m; cause = none })
as_connection_error (conn_caused s m e) = some (record { status = s; message = m; cause = some e })

unfoldable pub ensure_connection_error : Option GoError → String → String → Option ConnectionError
ensure_connection_error none status msg = none
ensure_connection_error (some err) status msg = elim (as_connection_error err) [
  | some c ↦ some c
  | none ↦ some (new_connection_error status msg (some err))
]

infixl 65 ◌<>◌
abbrev pub ◌<>◌ : String → String → String
s <> t = String.◌++◌ s t

-- `Error()` of a `*ConnectionError`, given the text of its cause.
with_status : String → String → String
with_status status message =
    if ltb 0 (String.len status) then message <> (" [" <> status <> "]") else message

-- `Error()`.
pub error_text : GoError → String
unfolding with_status
error_text (plain s) = s
error_text (net_error t s) = s
error_text (wrapped s e) = s <> (": " <> error_text e)
error_text (joined_one e) = error_text e
error_text (joined e f) = error_text e <> ("\n" <> error_text f)
error_text (conn s m) = with_status s m
error_text (conn_caused s m e) = with_status s m <> (": " <> error_text e)

-- `(*ConnectionError).Error()`, nil included.
unfoldable pub connection_error_text : Option ConnectionError → String
unfolding error_text
connection_error_text none = "<nil>"
connection_error_text (some e) = error_text (to_error e)

-- `Unwrap()`
pub unwrap : ConnectionError → Option GoError
unwrap e = e.cause

-- `errors.Join`: nil errors are dropped.
unfoldable pub join : Option GoError → Option GoError → Option GoError
join none none = none
join (some e) none = some (joined_one e)
join none (some f) = some (joined_one f)
join (some e) (some f) = some (joined e f)
