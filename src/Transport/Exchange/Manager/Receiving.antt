-- ===== src/Transport/Exchange/Manager/Receiving.antt =====
-- matter/src/transport/exchange.rs: `ExchangeMgr::recv`, `evict_session` and `add_session`, with the pool
-- that the packets' buffers come from.
use matter_rs.Base.{ℕ, if◌then◌else◌, Option, some, none, Result, ok, err, panic, no_space, invalid}
use matter_rs.Base.Exec.{Exec, ◌>>=◌, ◌>>◌}
use matter_rs.Base.Bytes.{LittleEndian}
use matter_rs.Base.Flags.{Bitflags}
use matter_rs.Transport.Crypto.{Aead}
use matter_rs.Transport.Packet.{Packet}
use matter_rs.Transport.Packet
use matter_rs.Transport.Packet.Pool.{BufferPool, free}
use matter_rs.Transport.Session.{CloneData}
use matter_rs.Transport.Session.Table.{get_lru}
use matter_rs.Transport.Session.Manager.{SessionMgr, Received, post_recv, clone_session}
use matter_rs.Transport.Session.Manager as SessionMgr
use matter_rs.Transport.Exchange.{Exchange}
use matter_rs.Transport.Exchange.Manager.{Env, Maps, ExchangeMgr, vacate, process}

module _ (maps : Maps) where
  module _ ⦃le : LittleEndian⦄ ⦃bf : Bitflags⦄ where
    -- `evict_session` with the packet that was made. Its buffer goes back to the pool in the end.
    abbrev pub evict_with :
        Aead
        → Env
        → ℕ
        → Result Packet
        → ExchangeMgr maps × BufferPool
        → Result (Unit {0}) × (ExchangeMgr maps × BufferPool)
    evict_with aead env index (ok tx) (x, pool) =
        let dropped = (free tx.buffer_index pool).1 in
        if env.evict_granted
        then (let (r, x') = vacate maps aead env index tx x in (r, (x', dropped)))
        else (err no_space, (x, dropped))
    evict_with aead env index (err e) s = (err e, s)
    evict_with aead env index panic s = (panic, s)

    unfoldable pub evict_session : Aead → Env → ℕ → Exec (ExchangeMgr maps × BufferPool) (Unit {0})
    evict_session aead env index (x, pool) =
        evict_with aead env index (Packet.new_tx pool).0 (x, (Packet.new_tx pool).1)

    -- The sessions alone.
    abbrev pub on_sessions :
        {A : Type 0} → Exec SessionMgr A → Exec (ExchangeMgr maps × BufferPool) A
    on_sessions f (x, pool) = let (r, m) = f x.sess_mgr in (r, (record x { sess_mgr = m }, pool))

    -- A `?` on an `Option` that is `ok_or(Error::Invalid)`.
    abbrev pub present : Result (Option ℕ) → Result ℕ
    present (ok (some i)) = ok i
    present (ok none) = err invalid
    present (err e) = err e
    present panic = panic

    -- Where the sessions were full, the least recently used one makes room, and the packet's session is
    -- looked up or made again.
    unfoldable pub make_room : Aead → Env → Packet → Exec (ExchangeMgr maps × BufferPool) ℕ
    unfolding get_lru evict_session post_recv
    make_room aead env p =
        (λ x. evict_session aead env (get_lru env.now x.0.sess_mgr.sessions) x)
        >> on_sessions (λ m. (
          present (post_recv env.now env.retry_ctr p m).0,
          (post_recv env.now env.retry_ctr p m).1,
        ))

    -- A packet that is dropped gives its buffer back.
    abbrev pub drop : Packet → ExchangeMgr maps × BufferPool → ExchangeMgr maps × BufferPool
    drop p (x, pool) = (x, (free p.buffer_index pool).1)

    unfoldable pub locate : Aead → Env → Packet → Option ℕ → Exec (ExchangeMgr maps × BufferPool) ℕ
    unfolding make_room
    locate aead env p (some index) s = (ok index, s)
    locate aead env p none s = make_room aead env p s

    -- Without an open exchange for it, the packet `p` is dropped.
    abbrev pub finished :
        Packet
        → BufferPool
        → Result (Option Exchange)
        → ExchangeMgr maps × Packet
        → Result (Option (Packet × Exchange)) × (ExchangeMgr maps × BufferPool)
    finished p pool (ok (some e)) (x, p') = (ok (some (p', e)), (x, pool))
    finished p pool (ok none) (x, p') = (ok none, drop p (x, pool))
    finished p pool (err e) (x, p') = (err e, drop p (x, pool))
    finished p pool panic (x, p') = (panic, (x, pool))

    abbrev pub dispatch :
        Aead
        → Env
        → Packet
        → Result ℕ
        → ExchangeMgr maps × BufferPool
        → Result (Option (Packet × Exchange)) × (ExchangeMgr maps × BufferPool)
    dispatch aead env p (ok index) (x, pool) =
        finished p pool (process maps aead env index (x, p)).0
          (process maps aead env index (x, p)).1
    dispatch aead env p (err e) s = (err e, drop p s)
    dispatch aead env p panic s = (panic, s)

    abbrev pub received :
        Aead
        → Env
        → Result (Packet × Option ℕ)
        → ExchangeMgr maps × BufferPool
        → Result (Option (Packet × Exchange)) × (ExchangeMgr maps × BufferPool)
    received aead env (ok (p, slot)) s =
        dispatch aead env p (locate aead env p slot s).0 (locate aead env p slot s).1
    received aead env (err e) s = (err e, s)
    received aead env panic s = (panic, s)

    unfoldable pub recv :
        Aead → Env → Exec (ExchangeMgr maps × BufferPool) (Option (Packet × Exchange))
    unfolding SessionMgr.recv
    recv aead env (x, pool) =
        let (r, (m, pool')) =
          SessionMgr.recv env.now env.ctr env.granted env.incoming (x.sess_mgr, pool) in
        received aead env r (record x { sess_mgr = m }, pool')

    -- That the sessions are full is answered by a second try.
    abbrev pub or_retry :
        Result ℕ
        → ExchangeMgr maps × BufferPool
        → Result ℕ × (ExchangeMgr maps × BufferPool)
        → Result ℕ × (ExchangeMgr maps × BufferPool)
    or_retry (ok index) s retried = (ok index, s)
    or_retry (err no_space) s retried = retried
    or_retry (err e) s retried = (err e, s)
    or_retry panic s retried = (panic, s)

    unfoldable pub add_session : Aead → Env → CloneData → Exec (ExchangeMgr maps × BufferPool) ℕ
    unfolding clone_session evict_session get_lru ◌>>=◌
    add_session aead env clone_data (x, pool) =
        let (r, m) = clone_session env.now env.ctr clone_data x.sess_mgr in
        let s : ExchangeMgr maps × BufferPool = (record x { sess_mgr = m }, pool) in
        or_retry r s (
          ((λ s. evict_session aead env (get_lru env.now s.0.sess_mgr.sessions) s)
              >> on_sessions (clone_session env.now env.retry_ctr clone_data))
            s)
