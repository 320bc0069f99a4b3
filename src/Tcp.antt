-- ===== src/Tcp.antt =====
-- service/tcp.go: the Shadowsocks TCP service, by the state of a connection and of its port.
pub mod State
pub mod Auth
pub mod Dial
pub mod Handler
pub mod Relay
pub mod Frame
pub mod Search
pub mod Checks
pub mod Replays
pub mod Trace
pub mod Reflection
pub mod Serve
pub mod History
pub mod OneTime
pub mod Race
pub mod Samples
mod Tests
mod ServeTests
mod RaceTests
