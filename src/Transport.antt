-- ===== src/Transport.antt =====
-- matter/src/transport: messages, their headers, sessions and exchanges.
pub mod Crypto
pub mod PlainHdr
pub mod ProtoHdr
pub mod Packet
pub mod Mrp
pub mod SessionMode
pub mod Session
pub mod Exchange
mod Tests
pub mod SessionTests
mod ExchangeTests
