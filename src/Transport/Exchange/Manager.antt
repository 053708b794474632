-- ===== src/Transport/Exchange/Manager.antt =====
-- matter/src/transport/exchange.rs: `ExchangeMgr`, the exchanges by their id beside the sessions. The
-- answers of the network, the clock and the slab are arguments. The map is the crate heapless's.
pub mod Receiving
pub mod Lookup
pub mod Cleanup
pub mod Acks
pub mod OtherSessions
pub mod Eviction
pub mod Buffers
pub mod Progress
use matter_rs.Base.{
  ℕ, Bool, true, false, ◌&&◌, ◌==◌, is_some, if◌then◌else◌, List, [], ◌∷◌, Option, some, none,
  Result, ok, err, panic, and_then, no_space, no_exchange, invalid,
}
use matter_rs.Base.Exec.{Exec, on_snd, ◌>>=◌, ◌>>◌}
use matter_rs.Base.LinearMap.{LinearMap}
use matter_rs.Base.LinearMap.Removal.{keys_where, remove_keys}
use matter_rs.Base.Bytes.{LittleEndian}
use matter_rs.Base.Flags.{Bitflags}
use matter_rs.SecureChannel.Status.{create_sc_status_report, close_session}
use matter_rs.Transport.Crypto.{Aead}
use matter_rs.Transport.ProtoHdr
use matter_rs.Transport.Packet.{Packet}
use matter_rs.Transport.Packet
use matter_rs.Transport.Packet.Pool.{BufferPool, free}
use matter_rs.Transport.Mrp.{Clock}
use matter_rs.Transport.Mrp
use matter_rs.Transport.Session.{CloneData}
use matter_rs.Transport.Session
use matter_rs.Transport.Session.Table.{get_lru}
use matter_rs.Transport.Session.Manager.{SessionMgr, Received, post_recv, clone_session}
use matter_rs.Transport.Session.Manager as SessionMgr
use matter_rs.Transport.Exchange.{
  Exchange, Role, same_role, get_complementary_role, is_state_open, is_purgeable, on_session,
}
use matter_rs.Transport.Exchange

abbrev pub max_exchanges : ℕ
max_exchanges = 8

abbrev pub max_mrp_entries : ℕ
max_mrp_entries = 4

-- What the outside answers in one call: the times and the random counters, whether the slab has room
-- for the packets, what the network receives and sends.
pub record Env : Type 0 where
  pub now : ℕ
  pub ctr : ℕ
  pub granted : Bool
  pub incoming : Result Received
  pub evict_granted : Bool
  pub evict_sent : Result (Unit {0})
  pub retry_ctr : ℕ
  pub clock : Clock

-- The map of the exchanges and the sets of ids of `purge` and `pending_acks`.
pub record Maps : Type 1 where
  pub exchanges : LinearMap Exchange max_exchanges
  pub purged : LinearMap (Unit {0}) max_exchanges
  pub acked : LinearMap (Unit {0}) max_mrp_entries

module _ (maps : Maps) where
  abbrev pub Exchanges : Type 0
  Exchanges = maps.exchanges.Map

  pub record ExchangeMgr : Type 0 where
    pub exchanges : Exchanges
    pub sess_mgr : SessionMgr

  unfoldable pub new : SessionMgr → ExchangeMgr
  new sess_mgr = record { exchanges = maps.exchanges.empty; sess_mgr = sess_mgr }

  -- An exchange that is missing is inserted, where `create_new` says so.
  unfoldable pub admit : ℕ → ℕ → Role → Bool → Exec Exchanges (Unit {0})
  unfolding Exchange.new
  admit sess_idx id role create_new m =
      let (done, m') = maps.exchanges.insert id (Exchange.new id sess_idx role) m in
      if is_some (maps.exchanges.get id m)
      then (ok tt, m)
      else if create_new
      then (if done then ok tt else err no_space, m')
      else (err no_space, m)

  -- The exchange is found by its id, and must have the session and the role.
  abbrev pub checked : ℕ → Role → Option Exchange → Result Exchange
  checked sess_idx role none = err no_space
  checked sess_idx role (some e) =
      if same_role e.role role && (sess_idx == e.sess_idx) then ok e else err no_exchange

  -- `_get`.
  unfoldable pub get : ℕ → ℕ → Role → Bool → Exec Exchanges Exchange
  unfolding admit
  get sess_idx id role create_new =
      admit sess_idx id role create_new >> λ m. (checked sess_idx role (maps.exchanges.get id m), m)

  -- The loop over the exchanges that fills `to_purge`, with the result of `insert` ignored.
  unfoldable pub note_purgeable : List (ℕ × Exchange) → maps.purged.Map → maps.purged.Map
  unfolding is_purgeable
  note_purgeable [] t = t
  note_purgeable ((id, e) ∷ xs) t =
      note_purgeable xs (if is_purgeable e then (maps.purged.insert id tt t).1 else t)

  unfoldable pub purge : ExchangeMgr → ExchangeMgr
  unfolding note_purgeable
  purge x =
      let to_purge = note_purgeable (maps.exchanges.entries x.exchanges) maps.purged.empty in
      record x {
        exchanges =
            remove_keys maps.exchanges (keys_where (λ u. true) (maps.purged.entries to_purge))
              x.exchanges;
      }

  -- The loop of `pending_acks`: `insert(..).unwrap()` panics where there is no room.
  unfoldable pub note_acks : Clock → List (ℕ × Exchange) → maps.acked.Map → Result maps.acked.Map
  unfolding Mrp.is_ack_ready
  note_acks c [] t = ok t
  note_acks c ((id, e) ∷ xs) t =
      let (done, t') = maps.acked.insert id tt t in
      let noted = note_acks c xs t' in
      let passed = note_acks c xs t in
      if Mrp.is_ack_ready c e.mrp then (if done then noted else panic) else passed

  unfoldable pub pending_acks : Clock → ExchangeMgr → maps.acked.Map → Result maps.acked.Map
  unfolding note_acks
  pending_acks c x expired_entries =
      note_acks c (maps.exchanges.entries x.exchanges) expired_entries

  abbrev pub of_session : ℕ → Exchange → Bool
  of_session index e = e.sess_idx == index

  -- `iter_mut().find(..)`.
  unfoldable pub find_of_session : ℕ → List (ℕ × Exchange) → Option (ℕ × Exchange)
  find_of_session index [] = none
  find_of_session index ((id, e) ∷ xs) =
      if of_session index e then some (id, e) else find_of_session index xs

  -- The sessions of the manager, beside a packet.
  abbrev with_sessions :
      Exec (SessionMgr × Packet) (Unit {0}) → Exec (ExchangeMgr × Packet) (Unit {0})
  with_sessions f (x, p) =
      let (r, (m, p')) = f (x.sess_mgr, p) in (r, (record x { sess_mgr = m }, p'))

  module _ ⦃le : LittleEndian⦄ ⦃bf : Bitflags⦄ where
    -- `exchange.send` on an exchange of the map, in place.
    unfoldable pub send_on :
        Aead → ℕ → Result (Unit {0}) → ℕ → ℕ → Exchange → Exec (ExchangeMgr × Packet) (Unit {0})
    unfolding Exchange.send
    send_on aead now sent idx id e (x, p) =
        let (r, (e', (m, p'))) = Exchange.send aead now idx sent (e, (x.sess_mgr, p)) in
        (r, (record { exchanges = maps.exchanges.assign id e' x.exchanges; sess_mgr = m }, p'))

    unfoldable pub send : Aead → ℕ → Result (Unit {0}) → ℕ → Exec (ExchangeMgr × Packet) (Unit {0})
    unfolding send_on
    send aead now sent id (x, p) = elim (maps.exchanges.get id x.exchanges) [
      | none ↦ (err no_exchange, (x, p))
      | some e ↦ send_on aead now sent e.sess_idx id e (x, p)
    ]

    -- `Close Session` on the first exchange of the session, if there is one.
    unfoldable pub send_close : Aead → Env → ℕ → Packet → Exec ExchangeMgr (Unit {0})
    unfolding send_on find_of_session
    send_close aead env index tx x =
        elim (find_of_session index (maps.exchanges.entries x.exchanges)) [
          | none ↦ (ok tt, x)
          | some (id, e) ↦
              let (r, (x', p)) = send_on aead env.now env.evict_sent index id e (x, tx) in (r, x')
        ]

    unfoldable pub remove_session : ℕ → Exec ExchangeMgr (Unit {0})
    unfolding SessionMgr.remove
    remove_session index x =
        let (r, m) = SessionMgr.remove index x.sess_mgr in
        (
          r,
          record {
            exchanges =
                remove_keys maps.exchanges
                  (keys_where (of_session index) (maps.exchanges.entries x.exchanges)) x.exchanges;
            sess_mgr = m;
          },
        )

    -- `evict_session`, with the packet that it sends.
    unfoldable pub vacate : Aead → Env → ℕ → Packet → Exec ExchangeMgr (Unit {0})
    unfolding create_sc_status_report send_close remove_session
    vacate aead env index tx = do
      λ x. ((create_sc_status_report close_session none tx).0, x)
      send_close aead env index (create_sc_status_report close_session none tx).1
      remove_session index

    -- The message's exchange, and what is to be acknowledged.
    unfoldable pub deliver : Env → ℕ → Packet → Exec ExchangeMgr (Option Exchange)
    unfolding get Mrp.recv get_complementary_role
    deliver env index p x =
        let from_initiator = ProtoHdr.is_initiator p.proto in
        let (found, m) =
          get index p.proto.exch_id (get_complementary_role from_initiator) from_initiator
            x.exchanges in
        elim found [
          | err e ↦ (err e, record x { exchanges = m })
          | panic ↦ (panic, record x { exchanges = m })
          | ok e ↦
              let (r, mrp) = Mrp.recv env.clock p e.mrp in
              let e' = record e { mrp = mrp } in
              (
                and_then r (λ _. ok (if is_state_open e' then some e' else none)),
                record x { exchanges = maps.exchanges.assign p.proto.exch_id e' m },
              )
        ]

    -- The message is decrypted, and handed to its exchange.
    unfoldable pub process : Aead → Env → ℕ → Exec (ExchangeMgr × Packet) (Option Exchange)
    unfolding on_session Session.recv deliver ◌>>=◌
    process aead env index = do
      with_sessions (on_session index (Session.recv aead env.now))
      λ (x, p). let (r, x') = deliver env index p x in (r, (x', p))
