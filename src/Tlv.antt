-- ===== src/Tlv.antt =====
-- matter/src/tlv: the tag-length-value format of all messages and stored data.
pub mod Tag
pub mod Writer
pub mod Element
pub mod Parser
pub mod RoundTrip
mod Tests
