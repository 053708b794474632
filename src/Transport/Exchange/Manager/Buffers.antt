-- ===== src/Transport/Exchange/Manager/Buffers.antt =====
-- matter/src/transport/exchange.rs: `ExchangeMgr::recv` and `evict_session` lose no buffer of the pool.
use matter_rs.Base.{
  ℕ, ◌≡◌, inl, inr, refl, ap, ◌∙◌, Bool, true, false, if◌then◌else◌, List, Option, some, none,
  get_elem?, Result, ok, err, panic,
}
use matter_rs.Base.Exec.{Exec, continue, bind_keeps, ◌>>=◌}
use matter_rs.Base.Bytes.{LittleEndian}
use matter_rs.Base.Flags.{Bitflags}
use matter_rs.Transport.Crypto.{Aead}
use matter_rs.Transport.Packet.{
  Packet, Direction, rx, tx, uninit, plain_decoded, proto_decoded, proto_decode,
}
use matter_rs.Transport.Packet.Making.{new_tx-Borrows}
use matter_rs.Transport.Packet.Pool.{BufferPool, free}
use matter_rs.Transport.Session.{Session}
use matter_rs.Transport.Session
use matter_rs.Transport.Session.Buffers.{IsSettled}
use matter_rs.Transport.Session.Buffers as SessionBuffers
use matter_rs.Transport.Session.Manager.{SessionMgr}
use matter_rs.Transport.Exchange.{Exchange, on_session}
use matter_rs.Transport.Exchange.Manager.{Env, Maps, ExchangeMgr, process}
use matter_rs.Transport.Exchange.Manager.Receiving.{
  evict_session, make_room, locate, on_sessions, finished, dispatch, received, recv,
}

-- No packet is answered.
abbrev pub no_packet : ℕ → Option Packet
no_packet i = none

unchanged :
    {A : Type 0} (pool pool' : BufferPool) (r : Result A)
    → pool' ≡ pool
    → IsSettled (λ a. none) pool r pool'
unchanged pool pool' (ok a) e = e
unchanged pool pool' (err x) e = e
unchanged pool pool' panic e = tt

if_both : {A : Type 0} (P : A → Type 0) (b : Bool) (x y : A) → P x → P y → P (if b then x else y)
if_both P true x y p q = p
if_both P false x y p q = q

module _ ⦃le : LittleEndian⦄ ⦃bf : Bitflags⦄ (aead : Aead) where
  decode_keeps :
      (nodeid : ℕ) (key : Option (List ℕ)) (p : Packet)
      → (proto_decode aead nodeid key p).1.buffer_index ≡ p.buffer_index
  unfolding proto_decode
  decode_keeps nodeid key p = by_direction p.direction refl
    where
      by_direction :
          (d : Direction)
          → p.direction ≡ d
          → (proto_decode aead nodeid key p).1.buffer_index ≡ p.buffer_index
      by_direction (tx wb) e = simp (e, proto_decode)
      by_direction (rx pb uninit) e = simp (e, proto_decode)
      by_direction (rx pb plain_decoded) e = simp (e, proto_decode)
      by_direction (rx pb proto_decoded) e = simp (e, proto_decode)

  session_keeps :
      (now index : ℕ) (m : SessionMgr) (p : Packet)
      → (on_session index (Session.recv aead now) (m, p)).1.1.buffer_index ≡ p.buffer_index
  unfolding on_session Session.recv
  session_keeps now index m p = by_slot _ refl
    where
      by_slot :
          (o : Option (Option Session))
          → get_elem? m.sessions index ≡ o
          → (on_session index (Session.recv aead now) (m, p)).1.1.buffer_index ≡ p.buffer_index
      by_slot none e = rw (e, on_session) refl
      by_slot (some none) e = rw (e, on_session) refl
      by_slot (some (some s)) e = rw (e, on_session) (decode_keeps _ _ p)

module _ ⦃le : LittleEndian⦄ ⦃bf : Bitflags⦄ (maps : Maps) (aead : Aead) (env : Env) where
  -- An eviction gives the buffer of its packet back, whether it succeeds or not.
  pub evict_session-IsSettled :
      (index : ℕ) (x : ExchangeMgr maps) (pool : BufferPool)
      → IsSettled
          (λ a. none)
          pool
          (evict_session maps aead env index (x, pool)).0
          (evict_session maps aead env index (x, pool)).1.1
  unfolding evict_session
  evict_session-IsSettled index x pool = elim (new_tx-Borrows pool) [
    | inl e ↦ rw (e, evict_session) refl
    | inr (p, pool', e, given) ↦
        rw (e, evict_session)
          (if_both {A = Result (Unit {0}) × (ExchangeMgr maps × BufferPool)}
            (λ y. IsSettled (λ a. none) pool y.0 y.1.1) env.evict_granted _ _
            (unchanged pool _ _ (ap (λ y. y.1) given)) (ap (λ y. y.1) given))
  ]

  continue-IsSettled :
      {A B : Type 0} (f : Exec SessionMgr B) (pool : BufferPool) (r : Result A)
      (s : ExchangeMgr maps × BufferPool)
      → IsSettled (λ a. none) pool r s.1
      → IsSettled
          (λ b. none)
          pool
          (continue r (λ a. on_sessions maps f) s).0
          (continue r (λ a. on_sessions maps f) s).1.1
  continue-IsSettled f pool (ok a) (x, pool') h = unchanged pool pool' (f x.sess_mgr).0 h
  continue-IsSettled f pool (err e) s h = h
  continue-IsSettled f pool panic s h = tt

  locate-IsSettled :
      (p : Packet) (slot : Option ℕ) (x : ExchangeMgr maps) (pool : BufferPool)
      → IsSettled
          (λ a. none)
          pool
          (locate maps aead env p slot (x, pool)).0
          (locate maps aead env p slot (x, pool)).1.1
  unfolding locate make_room ◌>>=◌
  locate-IsSettled p (some index) x pool = refl
  locate-IsSettled p none x pool = continue-IsSettled _ pool _ _ (evict_session-IsSettled _ x pool)

  -- The packet has this buffer.
  abbrev Holds : ℕ → ExchangeMgr maps × Packet → Type 0
  Holds index (x, p) = p.buffer_index ≡ index

  process_keeps :
      (index i : ℕ) (s : ExchangeMgr maps × Packet)
      → Holds i s
      → Holds i (process maps aead env index s).1
  unfolding process
  process_keeps index i =
      bind_keeps (Holds i) _ _ (λ s h. session_keeps aead env.now index s.0.sess_mgr s.1 ∙ h)
        (λ _ s h. h)

  abbrev answered : Option (Packet × Exchange) → Option Packet
  answered none = none
  answered (some (p, e)) = some p

  finished-IsSettled :
      (p : Packet) (pool pool' : BufferPool) (r : Result (Option Exchange))
      (s : ExchangeMgr maps × Packet)
      → free p.buffer_index pool' ≡ (ok tt, pool)
      → Holds p.buffer_index s
      → IsSettled answered pool (finished maps p pool' r s).0 (finished maps p pool' r s).1.1
  finished-IsSettled p pool pool' (ok (some e)) (x, p') given h = ap (λ i. free i pool') h ∙ given
  finished-IsSettled p pool pool' (ok none) (x, p') given h = ap (λ y. y.1) given
  finished-IsSettled p pool pool' (err e) (x, p') given h = ap (λ y. y.1) given
  finished-IsSettled p pool pool' panic (x, p') given h = tt

  dispatch-IsSettled :
      (p : Packet) (pool pool' : BufferPool) (r : Result ℕ) (s : ExchangeMgr maps × BufferPool)
      → free p.buffer_index pool' ≡ (ok tt, pool)
      → IsSettled (λ a. none) pool' r s.1
      → IsSettled answered pool (dispatch maps aead env p r s).0 (dispatch maps aead env p r s).1.1
  dispatch-IsSettled p pool pool' (ok index) (x, q) given h =
      finished-IsSettled p pool q (process maps aead env index (x, p)).0
        (process maps aead env index (x, p)).1 (ap (free p.buffer_index) h ∙ given)
        (process_keeps index p.buffer_index (x, p) refl)
  dispatch-IsSettled p pool pool' (err e) (x, q) given h =
      ap (λ y. (free p.buffer_index y).1) h ∙ ap (λ y. y.1) given
  dispatch-IsSettled p pool pool' panic s given h = tt

  received-IsSettled :
      (pool : BufferPool) (r : Result (Packet × Option ℕ)) (x : ExchangeMgr maps)
      (pool' : BufferPool)
      → IsSettled (λ a. some a.0) pool r pool'
      → IsSettled answered pool
          (received maps aead env r (x, pool')).0
          (received maps aead env r (x, pool')).1.1
  received-IsSettled pool (ok (p, slot)) x pool' h =
      dispatch-IsSettled p pool pool' (locate maps aead env p slot (x, pool')).0
        (locate maps aead env p slot (x, pool')).1 h (locate-IsSettled p slot x pool')
  received-IsSettled pool (err e) x pool' h = h
  received-IsSettled pool panic x pool' h = tt

  -- Whatever arrives and whatever the network, the slab and the clock answer: where `recv` answers a
  -- packet, exactly its buffer was taken from the pool; where it answers none, or an error, also after
  -- an eviction, the pool is as it was.
  pub recv-IsSettled :
      (x : ExchangeMgr maps) (pool : BufferPool)
      → IsSettled answered pool (recv maps aead env (x, pool)).0 (recv maps aead env (x, pool)).1.1
  unfolding recv
  recv-IsSettled x pool =
      received-IsSettled pool _ _ _
        (SessionBuffers.recv-IsSettled env.now env.ctr env.granted env.incoming x.sess_mgr pool)
