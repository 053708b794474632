-- ===== src/Transport/Session/Manager.antt =====
-- matter/src/transport/session.rs: `SessionMgr`. What the network answers is an argument of each call.
-- A packet's slot in the slab is granted or not; its buffer is taken from the pool, and goes back to
-- it when the packet is dropped.
use matter_rs.Base.{
  ℕ, suc, zero, ◌+◌, ◌%◌, ◌^◌, Bool, true, false, ◌&&◌, not, ◌==◌, is_some, if◌then◌else◌, List,
  length, splice, set, get_elem?, Option, some, none, Result, ok, err, panic, invalid, no_space,
  not_found, no_session, no_network_interface, packet_pool_exhaust,
}
use matter_rs.Base.Exec.{Exec, on_fst, on_snd, ◌>>◌}
use matter_rs.Base.Bytes.{LittleEndian}
use matter_rs.Base.Flags.{Bitflags}
use matter_rs.Transport.Crypto.{Aead}
use matter_rs.Transport.PlainHdr
use matter_rs.Transport.Packet.{Packet, Address, rx, tx}
use matter_rs.Transport.Packet
use matter_rs.Transport.Packet.Pool.{BufferPool, free}
use matter_rs.Transport.Session.{Session, CloneData}
use matter_rs.Transport.Session
use matter_rs.Transport.Session.Table.{Sessions, no_sessions, get_empty_slot, index_with_id, get}

-- Of the network interface only whether there is one.
pub record SessionMgr : Type 0 where
  pub next_sess_id : ℕ
  pub sessions : Sessions
  pub network : Bool

unfoldable pub new : SessionMgr
new = record { next_sess_id = 1; sessions = no_sessions; network = false }

unfoldable pub add_network_interface : Exec SessionMgr (Unit {0})
add_network_interface m =
    if m.network then (err invalid, m) else (ok tt, record m { network = true })

-- `overflowing_add(1).0`, and 0 is skipped.
abbrev pub following : ℕ → ℕ
following id = if (id + 1) % 2 ^ 16 == 0 then 1 else (id + 1) % 2 ^ 16

abbrev pub bumped : SessionMgr → SessionMgr
bumped m = record m { next_sess_id = following m.next_sess_id }

-- The loop of `get_next_sess_id`, on fuel.
unfoldable pub find_sess_id : ℕ → Exec SessionMgr ℕ
unfolding index_with_id
find_sess_id zero m = (panic, m)
find_sess_id (suc fuel) m =
    let rest = find_sess_id fuel (bumped m) in
    if is_some (index_with_id m.next_sess_id m.sessions)
    then rest
    else (ok m.next_sess_id, bumped m)

-- One try more than there are sessions.
unfoldable pub get_next_sess_id : Exec SessionMgr ℕ
unfolding find_sess_id
get_next_sess_id m = find_sess_id (suc (length m.sessions)) m

-- `self.sessions[idx] = None` panics on an index out of range.
unfoldable pub remove : ℕ → Exec SessionMgr (Unit {0})
remove idx m = elim (get_elem? m.sessions idx) [
  | none ↦ (panic, m)
  | some _ ↦ (ok tt, record m { sessions = set m.sessions idx none })
]

unfoldable pub add_session : Session → Exec SessionMgr ℕ
unfolding get_empty_slot
add_session session m = elim (get_empty_slot m.sessions) [
  | none ↦ (err no_space, m)
  | some index ↦ (ok index, record m { sessions = set m.sessions index (some session) })
]

unfoldable pub add : ℕ → ℕ → Address → Option ℕ → Exec SessionMgr ℕ
unfolding add_session Session.new
add now ctr peer_addr peer_nodeid = add_session (Session.new now ctr peer_addr peer_nodeid)

unfoldable pub clone_session : ℕ → ℕ → CloneData → Exec SessionMgr ℕ
unfolding add_session Session.clone
clone_session now ctr clone_data = add_session (Session.clone now ctr clone_data)

unfoldable pub get_or_add : ℕ → ℕ → ℕ → Address → Option ℕ → Bool → Exec SessionMgr ℕ
unfolding get add
get_or_add now ctr sess_id peer_addr peer_nodeid encrypted m =
    elim (get sess_id peer_addr peer_nodeid encrypted m.sessions) [
      | some index ↦ (ok index, m)
      | none ↦
          if sess_id == 0 && not encrypted
          then add now ctr peer_addr peer_nodeid m
          else (err not_found, m)
    ]

-- That the sessions are full is no error here.
abbrev pub full_is_none : Result ℕ → Result (Option ℕ)
full_is_none (ok s) = ok (some s)
full_is_none (err no_space) = ok none
full_is_none (err e) = err e
full_is_none panic = panic

module _ ⦃bf : Bitflags⦄ where
  unfoldable pub post_recv : ℕ → ℕ → Packet → Exec SessionMgr (Option ℕ)
  unfolding get_or_add
  post_recv now ctr p m =
      let (r, m') =
        get_or_add now ctr p.plain.sess_id p.peer (PlainHdr.get_src_u64 p.plain)
          (PlainHdr.is_encrypted p.plain) m in
      (full_is_none r, m')

-- What `network.recv` answers: the buffer with what was received in it, its length, and the sender.
pub record Received : Type 0 where
  pub bytes : List ℕ
  pub len : ℕ
  pub src : Address

-- The received bytes in the packet's buffer.
unfoldable pub fill : Received → Exec Packet (Unit {0})
fill r p = elim p.direction [
  | rx pb state ↦ (
    ok tt,
    record p {
      direction = rx (record pb { buf = splice pb.buf 0 r.bytes; left = r.len }) state;
      peer = r.src;
    },
  )
  | tx wb ↦ (err invalid, p)
]

module _ ⦃le : LittleEndian⦄ ⦃bf : Bitflags⦄ where
  -- `recv`, behind the network.
  unfoldable pub accept : ℕ → ℕ → Received → Exec (SessionMgr × Packet) (Option ℕ)
  unfolding fill post_recv
  accept now ctr r = do
    on_snd (fill r)
    on_snd Packet.plain_hdr_decode
    λ (m, p). on_fst (post_recv now ctr p) (m, p)

  -- The end of `recv`: on an error the packet `p` is dropped, and its buffer goes back.
  abbrev pub concluded :
      Packet
      → BufferPool
      → Result (Option ℕ)
      → SessionMgr × Packet
      → Result (Packet × Option ℕ) × (SessionMgr × BufferPool)
  concluded p pool (ok slot) (m, p') = (ok (p', slot), (m, pool))
  concluded p pool (err e) (m, p') = (err e, (m, (free p.buffer_index pool).1))
  concluded p pool panic (m, p') = (panic, (m, pool))

  -- The packet and the network, in the order in which `recv` asks for them.
  abbrev pub arrival : Bool → Bool → Result Received → Result Received
  arrival granted network incoming =
      if not granted
      then err packet_pool_exhaust
      else if not network
      then err no_network_interface
      else incoming

  abbrev pub arrived :
      ℕ
      → ℕ
      → Packet
      → SessionMgr × BufferPool
      → Result Received
      → Result (Packet × Option ℕ) × (SessionMgr × BufferPool)
  arrived now ctr p (m, pool) (ok r) =
      concluded p pool (accept now ctr r (m, p)).0 (accept now ctr r (m, p)).1
  arrived now ctr p (m, pool) (err e) = (err e, (m, (free p.buffer_index pool).1))
  arrived now ctr p (m, pool) panic = (panic, (m, pool))

  abbrev pub made :
      (Packet → SessionMgr × BufferPool → Result (Packet × Option ℕ) × (SessionMgr × BufferPool))
      → Result Packet
      → SessionMgr × BufferPool
      → Result (Packet × Option ℕ) × (SessionMgr × BufferPool)
  made k (ok p) s = k p s
  made k (err e) s = (err e, s)
  made k panic s = (panic, s)

  unfoldable pub recv :
      ℕ → ℕ → Bool → Result Received → Exec (SessionMgr × BufferPool) (Packet × Option ℕ)
  recv now ctr granted incoming (m, pool) =
      made (λ p s. arrived now ctr p s (arrival granted m.network incoming)) (Packet.new_rx pool).0
        (m, (Packet.new_rx pool).1)

  -- The bytes that go out, or the reason why none do. `sent` is what the network answers.
  unfoldable pub send : Aead → ℕ → ℕ → Result (Unit {0}) → Exec (SessionMgr × Packet) (Unit {0})
  unfolding Session.do_send
  send aead now idx sent (m, p) = elim (get_elem? m.sessions idx) [
    | none ↦ (panic, (m, p))
    | some none ↦ (err no_session, (m, p))
    | some (some s) ↦
        let (r, (s', p')) = Session.do_send aead now (s, p) in
        let m' = record m { sessions = set m.sessions idx (some s') } in
        elim r [
          | err e ↦ (err e, (m', p'))
          | panic ↦ (panic, (m', p'))
          | ok _ ↦ if m.network then (sent, (m', p')) else (err no_network_interface, (m', p'))
        ]
  ]
