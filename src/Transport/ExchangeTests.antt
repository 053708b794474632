-- ===== src/Transport/ExchangeTests.antt =====
-- Concrete runs of the exchanges, and their theorems at concrete inputs.
use matter_rs.Base.{
  ℕ, ◌≡◌, ◌<◌, ◌⊎◌, refl, arith, true, false, [], ◌∷◌, length, get_elem?, some, none, ok, err,
  panic, no_space, no_exchange, no_network_interface, if◌then◌else◌,
}
use matter_rs.Base.Exec.{◌>>=◌}
use matter_rs.Base.Search.{position, count}
use matter_rs.Base.Bytes.{reference_le}
use matter_rs.Base.Flags.{reference_flags}
use matter_rs.Base.LinearMap.Reference.{reference_map}
use matter_rs.Transport.PlainHdr
use matter_rs.ParseBuf
use matter_rs.WriteBuf
use matter_rs.Transport.ProtoHdr
use matter_rs.Transport.Crypto
use matter_rs.SecureChannel.Status.{create_sc_status_report, create_status_report, write_report}
use matter_rs.Transport.Packet.{Packet}
use matter_rs.Transport.Packet
use matter_rs.Transport.Packet.Pool.{BufferPool, alloc, new_buffer}
use matter_rs.Transport.SessionMode.{case_mode}
use matter_rs.Transport.Mrp.{Clock}
use matter_rs.Transport.Mrp
use matter_rs.Transport.Tests.{open_cipher}
use matter_rs.Transport.SessionTests.{session, outgoing}
use matter_rs.Transport.Session.{Session, CloneData}
use matter_rs.Transport.Session
use matter_rs.Transport.Session.Table.{get_lru, lru_from, get_empty_slot}
use matter_rs.Transport.Session.Manager.{SessionMgr}
use matter_rs.Transport.Session.Manager as SessionMgr
use matter_rs.Transport.Exchange.{Exchange, Role, initiator, responder, state_open, state_close}
use matter_rs.Transport.Exchange
use matter_rs.Transport.Exchange.Manager.{Env, Maps, Exchanges, ExchangeMgr}
use matter_rs.Transport.Exchange.Manager
use matter_rs.Transport.Exchange.Manager.Receiving.{evict_session, make_room, add_session, recv}
use matter_rs.Transport.Exchange.Manager.Lookup as Lookup
use matter_rs.Transport.Exchange.Manager.Cleanup as Cleanup
use matter_rs.Transport.Exchange.Manager.Acks as Acks
use matter_rs.Transport.Exchange.Manager.Eviction as Eviction
use matter_rs.Transport.Exchange.Manager.Progress as Progress
use matter_rs.Transport.Exchange.Manager.Buffers as Buffers

abbrev maps : Maps
maps = record {
  exchanges = reference_map _ _;
  purged = reference_map _ _;
  acked = reference_map _ _;
}

abbrev exchange : ℕ → ℕ → Exchange
exchange id sess_idx = record {
  id = id;
  sess_idx = sess_idx;
  role = responder;
  state = state_open;
  mrp = Mrp.new;
}

-- One exchange in the map.
abbrev one : Exchanges maps
one = (maps.exchanges.insert 7 (exchange 7 0) maps.exchanges.empty).1

get-IsFound_example : Lookup.IsFound maps 0 7 responder one one (exchange 7 0)
unfolding reference_map Manager.get Manager.admit ◌>>=◌
get-IsFound_example = Lookup.get-IsFound maps 0 7 responder true one (exchange 7 0) refl

-- Another session's message of the same id.
get_lem_example :
    ((e : Exchange)
      → maps.exchanges.get 7 one ≡ some e
      → Manager.get maps 1 7 responder true one
        ≡ ((if Lookup.belongs maps 1 7 responder e then ok e else err no_exchange), one))
    × (maps.exchanges.get 7 one ≡ none
        → ((true ≡ true)
            × (length (maps.exchanges.entries one) < 8)
            × ((Manager.get maps 1 7 responder true one).0 ≡ ok (Exchange.new 7 1 responder)))
          ⊎ (((true ≡ false) ⊎ (length (maps.exchanges.entries one) ≡ 8))
              × ((Manager.get maps 1 7 responder true one).0 ≡ err no_space)
              × ((i : ℕ)
                  → maps.exchanges.get i (Manager.get maps 1 7 responder true one).1
                    ≡ maps.exchanges.get i one)))
get_lem_example = Lookup.get_lem maps 1 7 responder true one

abbrev two : Exchanges maps
two = (maps.exchanges.insert 8 (Exchange.close (exchange 8 0)) one).1

abbrev full_manager : SessionMgr
full_manager = record { next_sess_id = 1; sessions = some session ∷ []; network = true }

abbrev manager : ExchangeMgr maps
manager = record { exchanges = two; sess_mgr = full_manager }

abbrev clock : Clock
clock = record { now = 1000; last = 100000 }

abbrev due_exchange : ℕ → Exchange
due_exchange id =
    let e = exchange id 0 in
    record e {
      mrp = record { retrans = none; ack = some (record { msg_ctr = 7; ack_timeout = 1200 }) };
    }

-- Five exchanges with an acknowledgement to be sent.
abbrev owing : ExchangeMgr maps
owing = record {
  exchanges =
      (maps.exchanges.insert 5 (due_exchange 5)
        (maps.exchanges.insert 4 (due_exchange 4)
          (maps.exchanges.insert 3 (due_exchange 3)
            (maps.exchanges.insert 2 (due_exchange 2)
              (maps.exchanges.insert 1 (due_exchange 1) maps.exchanges.empty).1).1).1).1).1;
  sess_mgr = full_manager;
}

pending_acks_example : Manager.pending_acks maps clock owing maps.acked.empty ≡ panic
unfolding reference_map Mrp.is_ack_ready Mrp.has_timed_out count
pending_acks_example = (Acks.pending_acks_lem maps clock owing).1 (omega arith)

abbrev env : Env
env = record {
  now = 50;
  ctr = 60;
  granted = true;
  incoming = err no_network_interface;
  evict_granted = true;
  evict_sent = ok tt;
  retry_ctr = 70;
  clock = clock;
}

abbrev pool : BufferPool
pool = none ∷ []

recv-IsSettled_example : (recv maps open_cipher env (manager, pool)).1.1 ≡ pool
unfolding recv SessionMgr.recv Packet.new_rx ◌>>=◌ alloc position ParseBuf.new new_buffer
recv-IsSettled_example = Buffers.recv-IsSettled maps open_cipher env manager pool

evicted : (evict_session maps open_cipher env 0 (manager, pool)).0 ≡ ok tt
unfolding evict_session reference_map Packet.new_tx Packet.reserved ◌>>=◌ alloc position new_buffer
    Manager.vacate Manager.send_close Manager.send_on Manager.find_of_session Manager.remove_session
    create_sc_status_report create_status_report write_report Packet.set_proto_id
    Packet.set_proto_opcode Packet.unset_reliable Packet.is_reliable ProtoHdr.unset_reliable
    ProtoHdr.is_reliable ProtoHdr.set_reliable ProtoHdr.set_initiator Packet.with_writebuf
    Exchange.send Exchange.labelled Exchange.on_session Exchange.close Mrp.pre_send Mrp.attach_ack
    Mrp.note_retrans Mrp.new SessionMgr.send SessionMgr.remove Session.pre_send Session.do_send
    Session.get_msg_ctr Session.seal Session.encoded Session.set_dest Session.encrypt_for
    Session.get_enc_key WriteBuf.prepend WriteBuf.new WriteBuf.reserve WriteBuf.reset
    WriteBuf.append WriteBuf.append_with WriteBuf.copy_from_slice WriteBuf.as_slice WriteBuf.le_u8
    WriteBuf.le_u16 WriteBuf.le_u32 WriteBuf.le_u64 ProtoHdr.encode ProtoHdr.encode_vendor
    ProtoHdr.encode_ack ProtoHdr.is_vendor ProtoHdr.is_ack PlainHdr.encode PlainHdr.encode_nodeid
    ProtoHdr.encrypt_in_place ProtoHdr.encrypt_slice ProtoHdr.get_iv ProtoHdr.nonce
    Crypto.encrypt_in_place reference_le
evicted = refl

evict_session_example :
    Eviction.IsEvicted maps 0 manager (evict_session maps open_cipher env 0 (manager, pool)).1.0
evict_session_example = Progress.evict_session-IsEvicted maps open_cipher env 0 manager pool evicted

make_room_example :
    (i : ℕ) × (s : Session) × ((make_room maps open_cipher env outgoing (manager, pool)).0 ≡ ok i)
    × (get_elem? (make_room maps open_cipher env outgoing (manager, pool)).1.0.sess_mgr.sessions i
        ≡ some (some s))
    × Progress.IsOpenFor outgoing s
unfolding get_lru lru_from PlainHdr.is_encrypted
make_room_example =
    Progress.make_room_lem maps open_cipher env outgoing manager pool (refl, refl) evicted

abbrev clone_data : CloneData
clone_data = record {
  dec_key = 1 ∷ [];
  enc_key = 2 ∷ [];
  att_challenge = [];
  local_sess_id = 2;
  peer_sess_id = 4;
  local_nodeid = 9;
  peer_nodeid = 8;
  peer_addr = 5;
  mode = case_mode 1;
}

add_session_example :
    (i : ℕ) × ((add_session maps open_cipher env clone_data (manager, pool)).0 ≡ ok i)
    × (get_elem?
          (add_session maps open_cipher env clone_data (manager, pool)).1.0.sess_mgr.sessions
          i
        ≡ some (some (Session.clone 50 70 clone_data)))
unfolding get_lru lru_from get_empty_slot position
add_session_example =
    Progress.add_session_lem maps open_cipher env clone_data manager pool refl evicted
