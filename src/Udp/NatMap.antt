-- ===== src/Udp/NatMap.antt =====
-- service/udp.go: `natmap`, the NAT table, by the text of the client's address. The mutex makes each
-- method one step.
use outline_ss_server.Prelude.Maps
use outline_ss_server.Prelude.Maps.{string_eq}
use outline_ss_server.Prelude.{ℕ, String, false, Option, none, some, List, map}
use outline_ss_server.IpInfo.{IpInfo}
use outline_ss_server.Udp.NatConn.{NatConn}

pub record NatMap (Key : Type 0) : Type 0 where
  pub key_conn : List (String × NatConn Key)
  pub timeout : ℕ

module _ {Key : Type 0} where
  unfoldable pub get : String → NatMap Key → Option (NatConn Key)
  get key m = Maps.get key m.key_conn

  -- The new entry, and the table with it.
  unfoldable pub set : String → Key → List ℕ → IpInfo → NatMap Key → NatConn Key × NatMap Key
  set key crypto_key key_id client_info m =
      let entry : NatConn Key = record {
        crypto_key = crypto_key;
        key_id = key_id;
        client_info = client_info;
        default_timeout = m.timeout;
        read_deadline = none;
        fast_close = false;
        deadline = none;
      } in
      (entry, record m { key_conn = Maps.put key entry m.key_conn })

  -- The entry is the connection that is then closed.
  unfoldable pub del : String → NatMap Key → Option (NatConn Key) × NatMap Key
  unfolding get
  del key m = elim (get key m) [
    | none ↦ (none, m)
    | some entry ↦ (some entry, record m { key_conn = Maps.del key m.key_conn })
  ]

  -- The connection of an entry that is written to changes in place.
  unfoldable pub update : String → NatConn Key → NatMap Key → NatMap Key
  update key entry m = record m { key_conn = Maps.put key entry m.key_conn }

  -- Every socket times out at once.
  unfoldable pub expire : ℕ → String × NatConn Key → String × NatConn Key
  expire now (k, c) = (k, record c { deadline = some now })

  unfoldable pub close : ℕ → NatMap Key → NatMap Key
  unfolding expire
  close now m = record m { key_conn = map (expire now) m.key_conn }
