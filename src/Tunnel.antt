-- ===== src/Tunnel.antt =====
-- cmd/outline-ss-server/metrics.go: the collector of the time that clients are connected.
-- The map is an association list: its order is one of the orders in which Go may iterate. The
-- counters of the Prometheus library are the lists of the calls of `Add`, newest first, in the
-- clock's unit; a location's labels are those of its IpInfo. A connection count is at least 1 as
-- long as its client is in the map, so that it is a natural number.
pub mod Conserve
pub mod Entries
pub mod Counts
mod Tests
use outline_ss_server.Prelude.{
  ℕ, zero, suc, ◌+◌, ◌-◌, Bool, ◌&&◌, Option, none, some, List, [], ◌∷◌, leb, if◌then◌else◌, map,
}
use outline_ss_server.Net.Ip.{bytes_eq}
use outline_ss_server.IpInfo.{IpInfo, IpInfoMap, get_ip_info_from_ip}
use outline_ss_server.Cipher.{Addr, no_addr, v4, v6, addr_eq}

pub record IpKey : Type 0 where
  pub ip : Addr
  pub access_key : List ℕ

-- `==` of the keys of the map.
unfoldable pub ip_key_eq : IpKey → IpKey → Bool
ip_key_eq a b = addr_eq a.ip b.ip && bytes_eq a.access_key b.access_key

pub record ActiveClient : Type 0 where
  pub info : IpInfo
  pub conn_count : ℕ
  pub start_time : ℕ

pub record TunnelTimeCollector : Type 0 where
  pub active_clients : List (IpKey × ActiveClient)
  pub tunnel_time_per_key : List (List ℕ × ℕ)
  pub tunnel_time_per_location : List (IpInfo × ℕ)

abbrev pub new_tunnel_time_collector : TunnelTimeCollector
new_tunnel_time_collector = record {
  active_clients = [];
  tunnel_time_per_key = [];
  tunnel_time_per_location = [];
}

-- The map's operations.
unfoldable pub find : IpKey → List (IpKey × ActiveClient) → Option ActiveClient
find key [] = none
find key ((k, cl) ∷ es) = if ip_key_eq k key then some cl else find key es

pub replace : IpKey → ActiveClient → List (IpKey × ActiveClient) → List (IpKey × ActiveClient)
replace key new [] = []
replace key new ((k, cl) ∷ es) =
    if ip_key_eq k key then (k, new) ∷ es else (k, cl) ∷ replace key new es

pub delete : IpKey → List (IpKey × ActiveClient) → List (IpKey × ActiveClient)
delete key [] = []
delete key ((k, cl) ∷ es) = if ip_key_eq k key then es else (k, cl) ∷ delete key es

-- `AsSlice`, which is nil for the zero address.
as_slice : Addr → Option (List ℕ)
as_slice no_addr = none
as_slice (v4 ip) = some ip
as_slice (v6 ip zone) = some ip

-- The calls of `Add`; the caller resets the start time of the client.
pub report_tunnel_time : IpKey → ActiveClient → ℕ → TunnelTimeCollector → TunnelTimeCollector
report_tunnel_time key client t_now c =
    let tunnel_time = t_now - client.start_time in
    record c {
      tunnel_time_per_key = (key.access_key, tunnel_time) ∷ c.tunnel_time_per_key;
      tunnel_time_per_location = (client.info, tunnel_time) ∷ c.tunnel_time_per_location;
    }

pub report_all : List (IpKey × ActiveClient) → ℕ → TunnelTimeCollector → TunnelTimeCollector
unfolding report_tunnel_time
report_all [] t_now c = c
report_all ((key, client) ∷ es) t_now c =
    report_all es t_now (report_tunnel_time key client t_now c)

-- The start time of a client is reset once its time is reported.
pub reset : ℕ → IpKey × ActiveClient → IpKey × ActiveClient
reset t_now (key, client) = (key, record client { start_time = t_now })

-- The part of `Collect` that runs under the mutex, at the time that the clock had before the mutex was
-- taken. A time before a client's start would make a negative difference, on which the counter
-- panics; where every time is no earlier than those of the calls before, there is none.
pub collect : ℕ → TunnelTimeCollector → TunnelTimeCollector
unfolding report_all reset
collect t_now c = record (report_all c.active_clients t_now c) {
  active_clients = map (reset t_now) c.active_clients;
}

pub start_connection : Option IpInfoMap → IpKey → ℕ → TunnelTimeCollector → TunnelTimeCollector
unfolding find replace as_slice
start_connection ip2info key t_now c = elim (find key c.active_clients) [
  | none ↦ record c {
    active_clients =
        (
          key,
          record {
            info = (get_ip_info_from_ip ip2info (as_slice key.ip)).0;
            conn_count = 1;
            start_time = t_now;
          },
        )
        ∷ c.active_clients;
  }
  | some client ↦ record c {
    active_clients =
        replace key (record client { conn_count = client.conn_count + 1 }) c.active_clients;
  }
]

pub stop_connection : IpKey → ℕ → TunnelTimeCollector → TunnelTimeCollector
unfolding find replace delete report_tunnel_time
stop_connection key t_now c = elim (find key c.active_clients) [
  | none ↦ c
  | some client ↦
      if leb (client.conn_count - 1) 0
      then record (report_tunnel_time key client t_now c) {
        active_clients = delete key c.active_clients;
      }
      else record c {
        active_clients =
            replace key (record client { conn_count = client.conn_count - 1 }) c.active_clients;
      }
]

-- The calls that the collector gets, each with the time since the one before.
pub data Call : Type 0 where
  start_call : IpKey → Call
  stop_call : IpKey → Call
  collect_call : Call

pub call : Option IpInfoMap → Call → ℕ → TunnelTimeCollector → TunnelTimeCollector
unfolding start_connection stop_connection collect
call ip2info (start_call key) = start_connection ip2info key
call ip2info (stop_call key) = stop_connection key
call ip2info collect_call = collect

pub run : Option IpInfoMap → List (ℕ × Call) → ℕ → TunnelTimeCollector → ℕ × TunnelTimeCollector
unfolding call
run ip2info [] t c = (t, c)
run ip2info ((dt, x) ∷ xs) t c = run ip2info xs (t + dt) (call ip2info x (t + dt) c)
