-- ===== src/Lib.antt =====
-- A verification library for outline-ss-server, a Shadowsocks proxy for TCP and UDP.
--
-- The program serves ports. Each port has a list of ciphers (service/cipher_list.go), one per access
-- key, in order of recent use. A TCP connection (service/tcp.go) is authenticated by trial decryption of
-- its first 50 bytes under the keys of the list, then checked against the salts that the server itself
-- makes (service/server_salt.go) and against the handshakes that a cache remembers (service/replay.go).
-- A connection that fails is drained, so that a probe learns nothing from when it is closed; one that
-- passes names a target, which is dialed if its address is public (net/private_net.go) and relayed to.
-- UDP packets (service/udp.go) are opened in the same way, and a table keeps one socket per client. The
-- location of clients (ipinfo/), the bytes that are transferred and the time that clients are connected
-- (cmd/outline-ss-server/metrics.go) go into the metrics. A configuration says which keys are served on
-- which ports; when it is loaded again, ports are started, removed, or given new ciphers
-- (cmd/outline-ss-server/main.go).
--
-- The files:
--   Prelude    Boolean tests, the conditional, integers, lists over the native numbers, and Go's maps as
--              association lists (Maps)
--   Net        net/error.go and net/private_net.go: ConnectionError (GoError), net.IP's classes and
--              networks (Ip), IsPrivateAddress and RequirePublicIP (Private); Ranges and Messages prove.
--              net/stream.go: Relay and the orders of its goroutines (Stream), of which Stream.Halves proves
--   Salt       service/server_salt.go: split_salt, get_tag, get_salt, is_server_salt; Marks proves
--   Cipher     service/cipher_list.go: a store of elements and a list of them; Snapshot and Recency prove
--   Replay     service/replay.go: pre_hash and add; Recall, Guard, Bounds and Negative prove
--   IpInfo     ipinfo/ipinfo.go, and ipinfo/mmdb.go in Mmdb; Codes and Mmdb prove
--   Tcp        service/tcp.go. State: what a connection runs on, and a state monad in which a panic ends
--              the handler. Auth: findAccessKey, findEntry, the authenticator. Dial: the dialer's
--              Control function. Handler: Handle, handleConnection, proxyConnection, absorbProbe. Relay:
--              the calls of the relay's two goroutines and their interleavings. Search, Checks, Replays,
--              Frame, Trace and Reflection prove about one connection. Serve: StreamServe, with the handlers one
--              after the other; History and OneTime prove about its connections. Race: the authenticators
--              of a port's connections, cut into steps that interleave; Race.Alone, Shared, Kept
--              and Window prove
--   Measure    service/metrics/metrics.go: the methods of measuredConn. Copy: io.Copy. Fast: what Go
--              documents of WriteTo and ReadFrom. Int64, Quiet, Counts and Returns prove
--   Udp        service/udp.go. NatConn: onWrite and onRead. NatMap: the table. Packet: validatePacket,
--              findAccessKeyUDP and one turn of Handle. Loop: Handle. Copy: timedCopy with its buffer.
--              Lifecycle: Add and the goroutines of the table's entries, as a step relation. Public:
--              NewPacketHandler. Deadlines, Admission, Unsent, Public, Layout, Replies, Turns and Drain
--              prove
--   Tunnel     the tunnelTimeCollector of cmd/outline-ss-server/metrics.go; Conserve, Entries and
--              Counts prove
--   Metrics    outlineMetrics in the same file. Run: the calls that the services make. Visits: the calls
--              that a connection's log is. Totals, Bytes, Clients and Packets prove
--   Server     cmd/outline-ss-server/main.go: startPort, removePort, loadConfig and Stop, with the sockets
--              that the process has open (State). Signals: RunSSServer. Changes, Ports, Load, Sockets,
--              Sound, Reload, Grants and Outcome prove
--   Program    readConfig and main of the same file, from the flags to the signal that ends the program; Life
--              and Errors prove
--   SlicePool  internal/slicepool/slicepool.go: Acquire and Release; Exclusive and Calls prove
-- Each component's Tests module runs the definitions at concrete inputs; Samples holds what these share.
--
-- Conventions. Bytes and strings that the program takes apart are lists of natural numbers; other
-- texts are String. A Go int that is never negative is a natural number; the capacity of the replay
-- cache, which may be negative, is an integer. A mutex makes a method one step; of Collect, which reads
-- the clock before it takes its mutex, the model has the part under it, at a given time. nil and errors are
-- options. The log of a connection's World is the sequence of its calls of the metrics and of its
-- actions on the connections, newest first. The text of a wrapped error leaves out the numbers that
-- the source formats into it. The loop of io.Copy in Measure runs on fuel, one unit a
-- turn: a source with k reads left needs k + 1 units (Measure.Returns); every other loop goes over a list. A
-- count of bytes in Measure is an int64 that wraps around; elsewhere a count is that of one
-- connection, and is taken not to reach 2^63. A range over a Go map takes the keys in the order of a
-- parameter.
--
-- Parameters. The Shadowsocks library (Cipher.Shadowsocks), HMAC, HKDF and the random source
-- (Salt.Hashes, Salt.Random), the text of addresses (Net.Text.NetText), the database reader
-- (IpInfo.Mmdb.Reader), the dialer of the standard library (Tcp.Dial.Dialer, with what Go documents of
-- Control in Controlled), the SOCKS addresses and the sockets of UDP (Udp.Packet.UdpNet), and, of one
-- connection, the target address that is read from the decrypted stream and the outcome of the relay
-- (Tcp.Handler.Visit). For a server, the system's sockets, the order of a range over a map and
-- NewEncryptionKey (Server.Env; what a range visits in Ranges, and a system that grants sockets in
-- Grants); for a UDP copy, the SOCKS address, Pack and the write to the client (Udp.Copy.ClientNet).
-- For the program, os.ReadFile (Program.Disk), yaml and the databases (Program.Libraries). For a
-- relay, io.Copy and the closing of the halves (Net.Stream.Duplex). For measured connections, the
-- wrapped connection's methods (Measure.StreamConn, Measure.Fast.IsDocumented). net.IP's
-- IsGlobalUnicast, To4 and IPNet.Contains follow Go's documentation.
--
-- Not modelled: handlers of TCP connections that interleave after they are authenticated, flag.Parse, the
-- names and buckets of the Prometheus collectors, the HTTP endpoint of the metrics, and logging.
pub mod Cipher
pub mod IpInfo
pub mod Measure
pub mod Metrics
pub mod Net
pub mod Prelude
pub mod Program
pub mod Replay
pub mod Salt
pub mod Server
pub mod SlicePool
pub mod Tcp
pub mod Tunnel
pub mod Udp
