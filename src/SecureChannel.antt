-- ===== src/SecureChannel.antt =====
-- matter/src/secure_channel: the status reports.
pub mod Status
mod Tests
