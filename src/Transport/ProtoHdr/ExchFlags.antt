-- ===== src/Transport/ProtoHdr/ExchFlags.antt =====
-- matter/src/transport/proto_hdr.rs: the constants of `ExchFlags`.
use matter_rs.Base.{ℕ}

abbrev pub vendor : ℕ
vendor = 0x10

abbrev pub secex : ℕ
secex = 0x08

abbrev pub reliable : ℕ
reliable = 0x04

abbrev pub ack : ℕ
ack = 0x02

abbrev pub initiator : ℕ
initiator = 0x01

-- Every bit that is a flag.
abbrev pub all : ℕ
all = 0x1f
