-- ===== src/Transport/PlainHdr/MsgFlags.antt =====
-- matter/src/transport/plain_hdr.rs: the constants of `MsgFlags`.
use matter_rs.Base.{ℕ}

abbrev pub dsiz_unicast_nodeid : ℕ
dsiz_unicast_nodeid = 0x01

abbrev pub dsiz_groupcast_nodeid : ℕ
dsiz_groupcast_nodeid = 0x02

abbrev pub src_addr_present : ℕ
src_addr_present = 0x04

-- Every bit that is a flag.
abbrev pub all : ℕ
all = 0x07
