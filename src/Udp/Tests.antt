-- ===== src/Udp/Tests.antt =====
-- Runs of the UDP service of service/udp.go, with a toy cipher that opens a packet by its first byte.
use outline_ss_server.Prelude.{
  ℕ, ◌*◌, ◌^◌, ◌≡◌, refl, inr, true, false, none, some, List, [], ◌∷◌, ◌++◌,
}
use outline_ss_server.Net.GoError.{ensure_connection_error}
use outline_ss_server.Net.Text.{inet_addr}
use outline_ss_server.IpInfo.{no_info}
use outline_ss_server.Cipher.{fill, matches_ip, snapshot_for_client_ip, mark_used_by_client_ip}
use outline_ss_server.Udp.NatConn.{NatConn, received, run}
use outline_ss_server.Udp.Deadlines.{Fresh, writes, may_close, first_read_deadline, no_early_close}
use outline_ss_server.Prelude.Maps
use outline_ss_server.Udp.NatMap.{get, set, close}
use outline_ss_server.Net.Text.{NetAddr}
use outline_ss_server.Net.GoError.{plain}
use outline_ss_server.Tcp.State.{done}
use outline_ss_server.Prelude.{ℕ, length, arith}
use outline_ss_server.Prelude.Maps.{keys, elem, Once, string_eq}
use outline_ss_server.Udp.Copy.{
  ClientNet, Arrival, packet, timed_out, read_error, body_start, send, timed_copy,
}
use outline_ss_server.Udp.Replies.{
  replies, received as received_part, ends, Short, timed_copy-replies,
}
use outline_ss_server.Udp.Lifecycle.{
  NatWorld, entered, announced, copies, add_sets, add_reports, add_goes, stop, Steps, none_left,
  after_step, Orderly, count,
}
use outline_ss_server.Udp.Drain.{Steps-Orderly}
use outline_ss_server.Udp.Packet.{
  unpack_entry, find_access_key_udp, validate_packet, admit_opened, admit_new, admit, conclude,
  handle_packet,
}
use outline_ss_server.Net.Ip.{is_global_unicast, to4}
use outline_ss_server.Net.Private.{require_public_ip, is_private_address}
use outline_ss_server.Net.Ranges.{expected_status4, mapped}
use outline_ss_server.Udp.Packet.{UdpNet}
use outline_ss_server.Udp.Public.{new_packet_handler, handle_packet-public}
use outline_ss_server.Udp.Admission.{Delivered, handle_packet-Delivered}
use outline_ss_server.Udp.Unsent.{handle_packet_unsent}
use outline_ss_server.Udp.Samples.{handler, port_state, incoming}

abbrev socket : NatConn ℕ
socket = record {
  crypto_key = 1;
  key_id = 1 ∷ [];
  client_info = no_info;
  default_timeout = 300 * 10 ^ 9;
  read_deadline = none;
  fast_close = false;
  deadline = none;
}

socket-Fresh : Fresh socket
socket-Fresh = record { read_deadline = refl; fast_close = refl; deadline = refl }

-- A DNS query and its answer.
first_read_deadline_example :
    (run (writes ((true, 5) ∷ []) ++ received true 9 ∷ []) socket).deadline ≡ some 9
unfolding may_close
first_read_deadline_example = first_read_deadline socket ((true, 5) ∷ []) true 9 socket-Fresh

-- Two queries: the answer to one does not end the other.
no_early_close_example :
    (run
      (writes ((true, 5) ∷ (true, 6) ∷ []) ++ received true 9 ∷ received true 10 ∷ [])
      socket).deadline
    ≡ (run
        (writes ((true, 5) ∷ (true, 6) ∷ []) ++ received true 9 ∷ received true 10 ∷ [])
        socket).read_deadline
unfolding may_close
no_early_close_example =
    no_early_close socket ((true, 5) ∷ (true, 6) ∷ []) true 9 (received true 10 ∷ []) socket-Fresh
      refl

handle_packet-Delivered_example :
    Delivered handler
      (incoming (2 ∷ 0 ∷ 10 ∷ 11 ∷ 12 ∷ []))
      port_state
      (record { ip = 8 ∷ 8 ∷ 8 ∷ 8 ∷ []; port = 53 })
      (10 ∷ 11 ∷ 12 ∷ [])
unfolding handle_packet admit get Maps.get admit_new find_access_key_udp unpack_entry
    snapshot_for_client_ip fill matches_ip admit_opened validate_packet set conclude
    mark_used_by_client_ip ensure_connection_error
handle_packet-Delivered_example =
    handle_packet-Delivered handler (incoming (2 ∷ 0 ∷ 10 ∷ 11 ∷ 12 ∷ [])) port_state
      (record { ip = 8 ∷ 8 ∷ 8 ∷ 8 ∷ []; port = 53 }) (10 ∷ 11 ∷ 12 ∷ []) refl

-- A target whose address is resolved to the 16-byte form.
abbrev mapped_net : UdpNet
mapped_net = record (handler.net) {
  resolve = λ tgt. inr (record { ip = mapped 8 8 8 8; port = 53 });
}

handle_packet-public_example : expected_status4 8 8 8 8 ≡ none
unfolding handle_packet admit get Maps.get admit_new find_access_key_udp unpack_entry
    snapshot_for_client_ip fill matches_ip admit_opened validate_packet set conclude
    mark_used_by_client_ip ensure_connection_error new_packet_handler require_public_ip
    is_global_unicast is_private_address to4
handle_packet-public_example =
    handle_packet-public handler.shadowsocks handler.text none mapped_net
      (incoming (2 ∷ 0 ∷ 10 ∷ 11 ∷ 12 ∷ [])) port_state (record { ip = mapped 8 8 8 8; port = 53 })
      (10 ∷ 11 ∷ 12 ∷ []) 8 8 8 8 (omega arith) (omega arith) (omega arith) (omega arith) (inr refl)
      refl

handle_packet_unsent_example :
    ((handle_packet handler (incoming (3 ∷ 0 ∷ 10 ∷ [])) port_state).1.nat ≡ port_state.nat)
    × ((handle_packet handler (incoming (3 ∷ 0 ∷ 10 ∷ [])) port_state).1.sockets ≡ 0)
unfolding handle_packet admit get Maps.get admit_new find_access_key_udp unpack_entry
    snapshot_for_client_ip fill matches_ip conclude
handle_packet_unsent_example =
    handle_packet_unsent handler (incoming (3 ∷ 0 ∷ 10 ∷ [])) port_state refl

-- A client whose packets are packed by a key in front.
abbrev client_net : ClientNet ℕ
client_net = record {
  parse_addr = λ a. 1 ∷ 8 ∷ 8 ∷ 8 ∷ 8 ∷ 0 ∷ 53 ∷ [];
  max_addr_len = 19;
  pack = λ room text key. inr (key ∷ text);
  pack_leaves = λ b text key. b;
  write_to = λ buf. (length buf, none);
}

abbrev resolver : NetAddr
resolver = inet_addr (8 ∷ 8 ∷ 8 ∷ 8 ∷ []) [] 53

abbrev arrivals : List (ℕ × Arrival)
arrivals =
    (5, packet (10 ∷ 11 ∷ []) resolver)
    ∷ (6, read_error 0 (plain "connection refused"))
    ∷ (9, timed_out)
    ∷ (10, packet (12 ∷ []) resolver)
    ∷ []

timed_copy-replies_example :
    timed_copy handler.shadowsocks client_net arrivals socket
    ≡ done (
      record {
        status = "OK";
        body_len = 2;
        proxy_client_bytes = 10;
        written = some (1 ∷ 1 ∷ 8 ∷ 8 ∷ 8 ∷ 8 ∷ 0 ∷ 53 ∷ 10 ∷ 11 ∷ []);
      }
          ∷ record { status = "ERR_READ"; body_len = 0; proxy_client_bytes = 0; written = none }
          ∷ [],
      true,
    )
unfolding replies received_part ends send body_start Short
timed_copy-replies_example =
    timed_copy-replies handler.shadowsocks client_net arrivals socket (omega arith)
      (omega arith, (tt, (tt, (omega arith, tt))))

-- A service that has no client yet.
abbrev idle : NatWorld ℕ
idle = record {
  nat = record { key_conn = []; timeout = 300 };
  running = [];
  added = 0;
  removed = 0;
  serving = true;
  adding = false;
}

idle-Orderly : Orderly idle
unfolding Once keys elem count
idle-Orderly = record { once = tt; owned = λ q. refl; counted = refl; alone = refl }

-- It gets one, and the service ends while the client's copy runs.
entered_one : NatWorld ℕ
entered_one = record idle {
  nat = (set "203.0.113.5:1234" 1 (1 ∷ []) no_info idle.nat).1;
  running = ("203.0.113.5:1234", entered) ∷ [];
  adding = true;
}

announced_one : NatWorld ℕ
unfolding entered_one
announced_one = record entered_one { running = ("203.0.113.5:1234", announced) ∷ []; added = 1 }

one_client : NatWorld ℕ
unfolding announced_one
one_client = record announced_one { running = ("203.0.113.5:1234", copies) ∷ []; adding = false }

finished : NatWorld ℕ
unfolding one_client
finished = record one_client { nat = close 9 one_client.nat; serving = false }

first_run : Steps idle finished
unfolding entered_one announced_one one_client finished get Maps.get
first_run =
    after_step idle entered_one finished
      (add_sets idle "203.0.113.5:1234" 1 (1 ∷ []) no_info refl refl refl)
      (after_step entered_one announced_one finished
        (add_reports entered_one [] [] "203.0.113.5:1234" refl)
        (after_step announced_one one_client finished
          (add_goes announced_one [] [] "203.0.113.5:1234" refl)
          (after_step one_client finished finished (stop one_client 9 refl refl)
            (none_left finished))))

Steps-Orderly_example : Orderly finished
Steps-Orderly_example = Steps-Orderly idle finished first_run idle-Orderly
