-- ===== src/Transport/SessionTests.antt =====
-- Concrete runs of the sessions and exchanges, and their theorems at concrete inputs.
use matter_rs.Base.{
  ℕ, ◌≡◌, ◌≤◌, ◌<◌, refl, arith, true, List, [], ◌∷◌, ◌++◌, replicate, some, none, ok,
}
use matter_rs.Base.Exec.{◌>>=◌, ◌>>◌}
use matter_rs.Base.Search.{position}
use matter_rs.Base.Bytes.{reference_le}
use matter_rs.Base.Flags.{reference_flags}
use matter_rs.ParseBuf.{ParseBuf}
use matter_rs.WriteBuf.{WriteBuf}
use matter_rs.WriteBuf
use matter_rs.Transport.PlainHdr
use matter_rs.Transport.ProtoHdr.{ProtoHdr}
use matter_rs.Transport.ProtoHdr
use matter_rs.Transport.ProtoHdr.Laws as ProtoLaws
use matter_rs.Transport.Crypto
use matter_rs.Transport.Packet.{Packet, tx, as_borrow_slice, plain_hdr_decode}
use matter_rs.Transport.Packet
use matter_rs.Transport.Tests.{open_cipher, plain_proto}
use matter_rs.Transport.SessionMode.{case_mode}
use matter_rs.Transport.Session.{Session}
use matter_rs.Transport.Session
use matter_rs.Transport.Session.Table.{index_with_id}
use matter_rs.Transport.Session.Ids.{IsUnused, get_next_sess_id_lem}
use matter_rs.Transport.Session.Sending.{with_tx, IsSendable}
use matter_rs.Transport.Session.Delivery as Delivery
use matter_rs.Transport.Session.Receiving.{with_rx, IsSecure}
use matter_rs.Transport.Session.Delivery.{IsPaired, recv-do_send}
use matter_rs.Transport.Session.Manager.{SessionMgr}
use matter_rs.Transport.Session.Manager as SessionMgr

abbrev pub session : Session
session = record {
  peer_addr = 5;
  local_nodeid = 9;
  peer_nodeid = some 8;
  dec_key = 1 ∷ [];
  enc_key = 2 ∷ [];
  att_challenge = [];
  local_sess_id = 1;
  peer_sess_id = 3;
  msg_ctr = 40;
  mode = case_mode 1;
  last_use = 10;
}

abbrev manager : SessionMgr
manager = record { next_sess_id = 1; sessions = some session ∷ none ∷ []; network = true }

get_next_sess_id_example :
    (id : ℕ) × ((SessionMgr.get_next_sess_id manager).0 ≡ ok id)
    × (1 ≤ id)
    × (id < 65536)
    × IsUnused id manager.sessions
    × ((SessionMgr.get_next_sess_id manager).1.sessions ≡ manager.sessions)
    × (1 ≤ (SessionMgr.get_next_sess_id manager).1.next_sess_id)
    × ((SessionMgr.get_next_sess_id manager).1.next_sess_id < 65536)
get_next_sess_id_example = get_next_sess_id_lem manager (omega arith) (omega arith) (omega arith)

id_1_is_taken : (SessionMgr.get_next_sess_id manager).0 ≡ ok 2
unfolding SessionMgr.get_next_sess_id SessionMgr.find_sess_id index_with_id position
id_1_is_taken = refl

-- The other end of `session`.
abbrev peer : Session
peer = record session {
  local_nodeid = 8;
  peer_nodeid = some 9;
  dec_key = 2 ∷ [];
  enc_key = 1 ∷ [];
  local_sess_id = 3;
  peer_sess_id = 1;
}

abbrev pub outgoing : Packet
outgoing = record {
  plain = PlainHdr.default_hdr;
  proto = plain_proto;
  peer = 0;
  direction = tx (record { buf = []; start = 0; end = 0 });
  buffer_index = 0;
}

abbrev payload : WriteBuf
payload = record { buf = replicate 14 0 ++ 11 ∷ 12 ∷ replicate 16 0; start = 14; end = 16 }

abbrev on_the_wire : List ℕ
on_the_wire = 0 ∷ 3 ∷ 0 ∷ 0 ∷ 40 ∷ 0 ∷ 0 ∷ 0 ∷ 1 ∷ 32 ∷ 1 ∷ 0 ∷ 2 ∷ 0 ∷ 11 ∷ 12 ∷ replicate 16 0

abbrev incoming : ParseBuf
incoming = record { buf = on_the_wire; read_off = 0; left = 32 }

secure : IsSecure session peer
secure = record { sender_secure = refl; receiver_secure = refl; same_key = refl; same_node = refl }

paired : IsPaired session peer
paired = record {
  secure = secure;
  id_set = ground arith;
  id_fits = omega arith;
  ctr_left = omega arith;
}

plain_proto-IsWellFormed : ProtoLaws.IsWellFormed plain_proto
unfolding ProtoHdr.is_vendor ProtoHdr.is_ack
plain_proto-IsWellFormed = record {
  known = omega arith;
  id_fits = omega arith;
  proto_fits = omega arith;
  vendor_fits = tt;
  ack_fits = tt;
  vendor_announced = refl;
  ack_announced = refl;
}

sendable :
    IsSendable open_cipher (Delivery.counted session) (Delivery.stamped session outgoing) payload
unfolding reference_le
sendable = record {
  secured = refl;
  proto_ok = plain_proto-IsWellFormed;
  valid = omega arith;
  front = omega arith;
  back = omega arith;
}

recv-do_send_example :
    (((Session.pre_send >> Session.do_send open_cipher 20)
        (session, with_tx outgoing payload)).1.0.msg_ctr
      ≡ 41)
    × ((plain_hdr_decode (with_rx outgoing incoming)).0 ≡ ok tt)
    × ((q' : Packet) × (Session.recv open_cipher 30
            (peer, (plain_hdr_decode (with_rx outgoing incoming)).1)
          ≡ (ok tt, (record peer { last_use = 30 }, q')))
        × (q'.plain.sess_id ≡ 3)
        × (q'.plain.ctr ≡ 40)
        × (q'.proto ≡ plain_proto)
        × (as_borrow_slice q' ≡ ok (11 ∷ 12 ∷ [])))
unfolding ◌>>=◌ Session.pre_send Session.do_send Session.get_msg_ctr Session.seal Session.encoded
    Session.set_dest Session.encrypt_for Session.get_enc_key Packet.with_writebuf as_borrow_slice
    WriteBuf.prepend WriteBuf.new WriteBuf.reserve WriteBuf.append WriteBuf.append_with
    WriteBuf.as_slice WriteBuf.le_u8 WriteBuf.le_u16 WriteBuf.le_u32 WriteBuf.le_u64
    WriteBuf.copy_from_slice ProtoHdr.encode ProtoHdr.encode_vendor ProtoHdr.encode_ack
    ProtoHdr.is_vendor ProtoHdr.is_ack PlainHdr.encode PlainHdr.encode_nodeid
    ProtoHdr.encrypt_in_place ProtoHdr.encrypt_slice ProtoHdr.get_iv ProtoHdr.nonce
    Crypto.encrypt_in_place reference_le
recv-do_send_example =
    recv-do_send open_cipher 20 30 session peer outgoing outgoing payload incoming on_the_wire
      paired refl sendable refl refl
      (record {
        no_nodeid = refl;
        no_vendor = refl;
        no_ack = refl;
        valid = omega arith;
        at_start = refl;
        received = refl;
      })
