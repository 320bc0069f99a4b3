-- ===== src/Tcp/State.antt =====
-- The state that a connection of service/tcp.go runs on, and the calls that it makes to outside.
use outline_ss_server.Prelude.{
  ℕ, ◌+◌, ◌≡◌, ap, String, Bool, Option, none, some, List, [], ◌∷◌, leb, if◌then◌else◌, length,
  take, drop,
}
use outline_ss_server.Net.GoError.{GoError, plain}
use outline_ss_server.Net.Text.{NetAddr, NetText}
use outline_ss_server.IpInfo.{IpInfo, IpInfoMap}
use outline_ss_server.Salt.{Hashes}
use outline_ss_server.Cipher.{Addr, Shadowsocks, CipherList}
use outline_ss_server.Replay.{ReplayCache}

-- service/metrics/metrics.go
pub record ProxyMetrics : Type 0 where
  pub client_proxy : ℕ
  pub proxy_target : ℕ
  pub target_proxy : ℕ
  pub proxy_client : ℕ

abbrev pub no_bytes : ProxyMetrics
no_bytes = record { client_proxy = 0; proxy_target = 0; target_proxy = 0; proxy_client = 0 }

-- A call of the metrics, or an action on a connection.
pub data Event : Type 0 where
  opened : IpInfo → Event
  cipher_search : Bool → Event
  authenticated : NetAddr → List ℕ → Event
  probe : String → String → ℕ → ℕ → Event
  closed : IpInfo → NetAddr → List ℕ → String → ProxyMetrics → Event
  set_deadline : ℕ → Event
  set_read_deadline : Option ℕ → Event
  drained : Event
  dialed : String → Event
  relayed : Event
  client_closed : Event

-- What the client sends and is not yet read, and the error that ends it; `none` is EOF.
pub record Conn : Type 0 where
  pub input : List ℕ
  pub ending : Option GoError

-- The state of a port, the connection being served, its byte counts, and the log, newest first.
pub record World (Key : Type 0) : Type 0 where
  pub ciphers : CipherList Key
  pub replay : Option ReplayCache
  pub conn : Conn
  pub metrics : ProxyMetrics
  pub log : List Event

-- A Go panic ends the handler; what was done before it stays done.
pub data Outcome (A : Type 0) : Type 0 where
  done : A → Outcome A
  panic : Outcome A

abbrev pub M : Type 0 → Type 0 → Type 0
M Key A = World Key → Outcome A × World Key

-- What follows a step.
abbrev pub next : {Key A B : Type 0} → (A → M Key B) → Outcome A × World Key → Outcome B × World Key
next f (done a, w) = f a w
next f (panic, w) = (panic, w)

infixl 5 ◌>>=◌ ◌>>◌
abbrev pub ◌>>=◌ : {Key A B : Type 0} → M Key A → (A → M Key B) → M Key B
◌>>=◌ m f w = next f (m w)

-- A step that is known to be done.
pub bind-done :
    {Key A B : Type 0} (m : M Key A) (f : A → M Key B) (w : World Key) {a : A} {w' : World Key}
    → m w ≡ (done a, w')
    → (m >>= f) w ≡ f a w'
bind-done m f w e = ap (next f) e

abbrev pub ◌>>◌ : {Key A : Type 0} → M Key (Unit {0}) → M Key A → M Key A
◌>>◌ m k = m >>= λ _. k

abbrev pub pure : {Key A : Type 0} → A → M Key A
pure a w = (done a, w)

abbrev pub lift : {Key A : Type 0} → Outcome A → M Key A
lift r w = (r, w)

abbrev pub gets : {Key A : Type 0} → (World Key → A) → M Key A
gets f w = (done (f w), w)

abbrev pub emit : {Key : Type 0} → Event → M Key (Unit {0})
emit e w = (done tt, record w { log = e ∷ w.log })

-- A read through the measured connection counts what it gets.
abbrev pub count_read : ProxyMetrics → ℕ → ProxyMetrics
count_read m n = record m { client_proxy = m.client_proxy + n }

-- `io.EOF` if nothing came, `io.ErrUnexpectedEOF` if too little did, or the error of the read.
abbrev pub read_error : Conn → GoError
read_error c = elim c.ending [
  | some e ↦ e
  | none ↦ elim c.input [ [] ↦ plain "EOF" | x ∷ xs ↦ plain "unexpected EOF" ]
]

pub data Read : Type 0 where
  bytes : List ℕ → Read
  short : GoError → Read

-- `io.ReadFull` of n bytes.
unfoldable pub read_full : {Key : Type 0} → ℕ → M Key Read
read_full n w =
    if leb n (length w.conn.input)
    then (
      done (bytes (take n w.conn.input)),
      record w {
        conn = record (w.conn) { input = drop n w.conn.input };
        metrics = count_read w.metrics n;
      },
    )
    else (
      done (short (read_error w.conn)),
      record w {
        conn = record (w.conn) { input = [] };
        metrics = count_read w.metrics (length w.conn.input);
      },
    )

-- `io.Copy(io.Discard, conn)`: reads all that comes, and returns the error that ends it.
unfoldable pub drain : {Key : Type 0} → M Key (Option GoError)
drain w = (
  done w.conn.ending,
  record w {
    conn = record (w.conn) { input = [] };
    metrics = count_read w.metrics (length w.conn.input);
    log = drained ∷ w.log;
  },
)

-- What a handler is made with: the libraries that it calls, and the fields of `tcpHandler`.
pub record Service (Key : Type 0) : Type 0 where
  pub shadowsocks : Shadowsocks Key
  pub hashes : Hashes
  pub text : NetText
  pub parse_addr_port : String → Option Addr
  pub ip2info : Option IpInfoMap
  pub port : ℕ
  pub read_timeout : ℕ
