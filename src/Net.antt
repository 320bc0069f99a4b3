-- ===== src/Net.antt =====
-- The package net of the repository: connection errors, address ranges, the target validator, the relay.
pub mod GoError
pub mod Ip
pub mod Text
pub mod Private
pub mod Ranges
pub mod Messages
pub mod Stream
mod Tests
mod StreamTests
