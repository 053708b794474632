-- ===== src/Transport/Exchange.antt =====
-- matter/src/transport/exchange.rs: one exchange, a conversation within a session. What a handler
-- keeps in `data` is opaque to the transport, and is left out with its four accessors.
pub mod Manager
use matter_rs.Base.{
  ℕ, Bool, true, false, ◌&&◌, if◌then◌else◌, get_elem?, set, Option, some, none, ok, err, panic,
}
use matter_rs.Base.Exec.{Exec, on_snd, ◌>>=◌, ◌>>◌}
use matter_rs.Base.{Result}
use matter_rs.Base.Bytes.{LittleEndian}
use matter_rs.Base.Flags.{Bitflags}
use matter_rs.Transport.Crypto.{Aead}
use matter_rs.Transport.ProtoHdr
use matter_rs.Transport.Packet.{Packet}
use matter_rs.Transport.Mrp.{ReliableMessage}
use matter_rs.Transport.Mrp
use matter_rs.Transport.Session.{Session}
use matter_rs.Transport.Session
use matter_rs.Transport.Session.Manager.{SessionMgr}
use matter_rs.Transport.Session.Manager as SessionMgr

pub data Role : Type 0 where
  initiator responder : Role

pub data State : Type 0 where
  state_open state_close : State

pub record Exchange : Type 0 where
  pub id : ℕ
  pub sess_idx : ℕ
  pub role : Role
  pub state : State
  pub mrp : ReliableMessage

unfoldable pub new : ℕ → ℕ → Role → Exchange
unfolding Mrp.new
new id sess_idx role = record {
  id = id;
  sess_idx = sess_idx;
  role = role;
  state = state_open;
  mrp = Mrp.new;
}

unfoldable pub close : Exchange → Exchange
close e = record e { state = state_close }

unfoldable pub is_state_open : Exchange → Bool
is_state_open e = elim e.state [ state_open ↦ true | state_close ↦ false ]

unfoldable pub is_purgeable : Exchange → Bool
unfolding Mrp.is_empty
is_purgeable e = elim e.state [ state_open ↦ false | state_close ↦ Mrp.is_empty e.mrp ]

abbrev pub same_role : Role → Role → Bool
same_role initiator initiator = true
same_role responder responder = true
same_role initiator responder = false
same_role responder initiator = false

unfoldable pub get_role : Bool → Role
get_role is_initiator = if is_initiator then initiator else responder

unfoldable pub get_complementary_role : Bool → Role
get_complementary_role is_initiator = if is_initiator then responder else initiator

-- A method of the session of a `SessionHandle`: there must be one at the index.
unfoldable pub on_session :
    ℕ → Exec (Session × Packet) (Unit {0}) → Exec (SessionMgr × Packet) (Unit {0})
on_session idx f (m, p) = elim (get_elem? m.sessions idx) [
  | none ↦ (panic, (m, p))
  | some none ↦ (panic, (m, p))
  | some (some s) ↦
      let (r, (s', p')) = f (s, p) in
      (r, (record m { sessions = set m.sessions idx (some s') }, p'))
]

-- A method of the exchange's `mrp` that may change the packet.
abbrev on_mrp :
    Exec (ReliableMessage × Packet) (Unit {0}) → Exec (Exchange × (SessionMgr × Packet)) (Unit {0})
on_mrp f (e, (m, p)) = let (r, (mrp, p')) = f (e.mrp, p) in (r, (record e { mrp = mrp }, (m, p')))

module _ ⦃bf : Bitflags⦄ where
  -- The exchange's id, and its role where it is the initiator.
  unfoldable pub labelled : Exchange → Packet → Packet
  labelled e p =
      let proto = p.proto in
      let with_id = record proto { exch_id = e.id } in
      record p {
        proto = elim e.role [ initiator ↦ ProtoHdr.set_initiator with_id | responder ↦ with_id ];
      }

module _ ⦃le : LittleEndian⦄ ⦃bf : Bitflags⦄ where
  -- On the handle of the session `idx`; `sent` is what the network answers.
  unfoldable pub send :
      Aead → ℕ → ℕ → Result (Unit {0}) → Exec (Exchange × (SessionMgr × Packet)) (Unit {0})
  unfolding labelled on_session Session.pre_send Mrp.pre_send SessionMgr.send
  send aead now idx sent = do
    λ (e, (m, p)). (ok tt, (e, (m, labelled e p)))
    on_snd (on_session idx Session.pre_send)
    on_mrp Mrp.pre_send
    on_snd (SessionMgr.send aead now idx sent)
