-- ===== src/Transport/Exchange/Manager/Progress.antt =====
-- matter/src/transport/exchange.rs: a full table of sessions stops neither a first message nor a new
-- session, once the eviction goes through.
use matter_rs.Base.{
  ℕ, ◌≡◌, inl, inr, ◌&&◌, not, ◌==◌, ==_iff, arith, refl, ap, ◌∙◌, Bool, true, false, is_none,
  if◌then◌else◌, get_elem?, get_elem?-set_self, lt_of_get_elem?, Option, some, none, Option-cases,
  Result, ok, err, Error, no_space,
}
use matter_rs.Base.Exec.{bind_then}
use matter_rs.Base.Search.{position_missing, position_found}
use matter_rs.Base.Bytes.{LittleEndian}
use matter_rs.Base.Flags.{Bitflags}
use matter_rs.Transport.Crypto.{Aead}
use matter_rs.Transport.PlainHdr
use matter_rs.Transport.Packet.{Packet}
use matter_rs.Transport.Packet.Making.{new_tx-Borrows}
use matter_rs.Transport.Packet.Pool.{BufferPool}
use matter_rs.Transport.Session.{Session, CloneData}
use matter_rs.Transport.Session
use matter_rs.Transport.Session.Table.{
  Sessions, get_empty_slot, get, get_lru, is_for, nodeids_differ,
}
use matter_rs.Transport.Session.Manager.{
  SessionMgr, add_session, add, clone_session, get_or_add, post_recv, full_is_none,
}
use matter_rs.Transport.Exchange.Manager.{Env, Maps, ExchangeMgr}
use matter_rs.Transport.Exchange.Manager.Receiving.{
  evict_with, evict_session, make_room, on_sessions, present,
}
use matter_rs.Transport.Exchange.Manager.Receiving
use matter_rs.Transport.Exchange.Manager.Eviction.{IsEvicted, vacate_lem}

-- A table with a free slot.
abbrev HasRoom : Sessions → Type 0
HasRoom sessions = (i : ℕ) × (get_elem? sessions i ≡ some none)

empty_slot :
    (sessions : Sessions)
    → HasRoom sessions
    → (i : ℕ) × (get_empty_slot sessions ≡ some i) × (get_elem? sessions i ≡ some none)
unfolding get_empty_slot
empty_slot sessions (k, here) = elim (Option-cases (get_empty_slot sessions)) [
  | inl e ↦ cc (position_missing is_none sessions k none e here)
  | inr (i, e) ↦
      let (o, at, free) = position_found is_none sessions i e in
      (i, e, at ∙ ap some (none_of o free))
]
  where
    none_of : (o : Option Session) → is_none o ≡ true → o ≡ none
    none_of none h = refl
    none_of (some s) h = cc

added :
    (s : Session) (m : SessionMgr)
    → HasRoom m.sessions
    → (i : ℕ) × ((add_session s m).0 ≡ ok i)
      × (get_elem? (add_session s m).1.sessions i ≡ some (some s))
unfolding add_session
added s m room =
    let (i, e, at) = empty_slot m.sessions room in
    (
      i,
      rw (e, add_session) refl,
      rw (e, add_session)
          (get_elem?-set_self m.sessions i (some s) (lt_of_get_elem? m.sessions i none at)),
    )

module _ ⦃bf : Bitflags⦄ where
  -- A first message of a peer: no session id and no encryption.
  abbrev pub IsFirst : Packet → Type 0
  IsFirst p = (p.plain.sess_id ≡ 0) × (PlainHdr.is_encrypted p.plain ≡ false)

  -- A session without encryption for the sender of a packet: of its address, with no other node id
  -- than the packet's, under the id 0 of a session that is not established.
  pub record IsOpenFor (p : Packet) (s : Session) : Type 0 where
    pub id : s.local_sess_id ≡ 0
    pub address : s.peer_addr ≡ p.peer
    pub node : nodeids_differ s.peer_nodeid (PlainHdr.get_src_u64 p.plain) ≡ false
    pub plain : Session.is_encrypted s ≡ false

  and_inv : (a b : Bool) → a && b ≡ true → (a ≡ true) × (b ≡ true)
  and_inv true b h = (refl, h)
  and_inv false b h = absurd cc

  negated : (b : Bool) → not b ≡ true → b ≡ false
  negated true h = absurd cc
  negated false h = refl

  -- A session that the search for an open one finds.
  found-IsOpenFor :
      (p : Packet) (o : Option Session)
      → is_for 0 p.peer (PlainHdr.get_src_u64 p.plain) false o ≡ true
      → (s : Session) × (o ≡ some s) × IsOpenFor p s
  found-IsOpenFor p none h = absurd cc
  found-IsOpenFor p (some s) h =
      let node = not (nodeids_differ s.peer_nodeid (PlainHdr.get_src_u64 p.plain)) in
      let open_ = not (Session.is_encrypted s) in
      let id = s.local_sess_id == 0 in
      let address = s.peer_addr == p.peer in
      let (hf, hn) = and_inv (id && address && open_) node h in
      let (hs, he) = and_inv (id && address) open_ hf in
      let (hi, ha) = and_inv id address hs in
      (
        s,
        refl,
        record {
          id = (==_iff s.local_sess_id 0).0 hi;
          address = (==_iff s.peer_addr p.peer).0 ha;
          node = negated (nodeids_differ s.peer_nodeid (PlainHdr.get_src_u64 p.plain)) hn;
          plain = negated (Session.is_encrypted s) he;
        },
      )

  same_node : (o : Option ℕ) → nodeids_differ o o ≡ false
  same_node none = refl
  same_node (some i) = ground arith

  new-IsOpenFor :
      (now ctr : ℕ) (p : Packet)
      → IsOpenFor p (Session.new now ctr p.peer (PlainHdr.get_src_u64 p.plain))
  unfolding Session.new Session.is_encrypted
  new-IsOpenFor now ctr p = record {
    id = refl;
    address = refl;
    node = same_node (PlainHdr.get_src_u64 p.plain);
    plain = refl;
  }

  get_or_add_room :
      (now ctr : ℕ) (p : Packet) (m : SessionMgr)
      → HasRoom m.sessions
      → (let r = get_or_add now ctr 0 p.peer (PlainHdr.get_src_u64 p.plain) false m in
          (i : ℕ) × (s : Session) × (r.0 ≡ ok i)
          × (get_elem? r.1.sessions i ≡ some (some s))
          × IsOpenFor p s)
  unfolding get_or_add add get
  get_or_add_room now ctr p m room =
      let node = PlainHdr.get_src_u64 p.plain in
      elim (Option-cases (get 0 p.peer node false m.sessions)) [
        | inr (i, e) ↦
            let (o, at, test) = position_found (is_for 0 p.peer node false) m.sessions i e in
            let (s, is, open_for) = found-IsOpenFor p o test in
            (i, s, rw (e, get_or_add) refl, rw (e, get_or_add) (at ∙ ap some is), open_for)
        | inl e ↦
            let (i, done, at) = added (Session.new now ctr p.peer node) m room in
            (
              i,
              Session.new now ctr p.peer node,
              rw (e, get_or_add) done,
              rw (e, get_or_add) at,
              new-IsOpenFor now ctr p,
            )
      ]

  post_recv_room :
      (now ctr : ℕ) (p : Packet) (m : SessionMgr)
      → IsFirst p
      → HasRoom m.sessions
      → (i : ℕ) × (s : Session) × ((post_recv now ctr p m).0 ≡ ok (some i))
        × (get_elem? (post_recv now ctr p m).1.sessions i ≡ some (some s))
        × IsOpenFor p s
  unfolding post_recv
  post_recv_room now ctr p m (id, plain) room =
      let (i, s, done, at, open_for) = get_or_add_room now ctr p m room in
      let node = PlainHdr.get_src_u64 p.plain in
      let same : get_or_add now ctr p.plain.sess_id p.peer node (PlainHdr.is_encrypted p.plain) m
          ≡ get_or_add now ctr 0 p.peer node false m =
        λ k. get_or_add now ctr (id k) p.peer node (plain k) m in
      (
        i,
        s,
        ap (λ r. full_is_none r.0) same ∙ ap full_is_none done,
        ap (λ r. get_elem? r.1.sessions i) same ∙ at,
        open_for,
      )

if_done :
    {S : Type 0} (b : Bool) (x : Result (Unit {0}) × S) (e : Error) (s : S)
    → (if b then x else (err e, s)).0 ≡ ok tt
    → (x.0 ≡ ok tt) × ((if b then x else (err e, s)) ≡ x)
if_done true x e s h = (h, refl)
if_done false x e s h = cc

module _ ⦃le : LittleEndian⦄ ⦃bf : Bitflags⦄ (maps : Maps) (aead : Aead) (env : Env) where
  -- What `evict_session` does where it succeeds.
  pub evict_session-IsEvicted :
      (index : ℕ) (x : ExchangeMgr maps) (pool : BufferPool)
      → (evict_session maps aead env index (x, pool)).0 ≡ ok tt
      → IsEvicted maps index x (evict_session maps aead env index (x, pool)).1.0
  unfolding evict_session
  evict_session-IsEvicted index x pool done = elim (new_tx-Borrows pool) [
    | inl e ↦
        let failed : (evict_session maps aead env index (x, pool)).0 ≡ err no_space =
          rw (e, evict_session) refl in
        cc
    | inr (p, pool', e, given) ↦
        let done' : (evict_with maps aead env index (ok p) (x, pool')).0 ≡ ok tt =
          rw (e, evict_session) at done in
        let (vacated, same) = if_done env.evict_granted _ no_space _ done' in
        rw (e, evict_session) (rw same (vacate_lem maps aead env index p x vacated))
  ]

  -- When the eviction of the least recently used session goes through and the message is a peer's
  -- first one, then the message has a session in the end: at the slot that is answered stands a
  -- session for its sender.
  pub make_room_lem :
      (p : Packet) (x : ExchangeMgr maps) (pool : BufferPool)
      → IsFirst p
      → (evict_session maps aead env (get_lru env.now x.sess_mgr.sessions) (x, pool)).0 ≡ ok tt
      → (i : ℕ) × (s : Session) × ((make_room maps aead env p (x, pool)).0 ≡ ok i)
        × (get_elem? (make_room maps aead env p (x, pool)).1.0.sess_mgr.sessions i ≡ some (some s))
        × IsOpenFor p s
  unfolding make_room
  make_room_lem p x pool first done =
      let index = get_lru env.now x.sess_mgr.sessions in
      let after = (evict_session maps aead env index (x, pool)).1 in
      let evicted = evict_session-IsEvicted index x pool done in
      let (i, s, found, at, open_for) =
        post_recv_room env.now env.retry_ctr p after.0.sess_mgr first (index, evicted.freed) in
      let step =
        bind_then (λ t. evict_session maps aead env (get_lru env.now t.0.sess_mgr.sessions) t) _
          (x, pool) tt done in
      (
        i,
        s,
        ap (λ y. y.0) step ∙ ap (present maps) found,
        ap (λ y. get_elem? y.1.0.sess_mgr.sessions i) step ∙ at,
        open_for,
      )

  refused :
      (d : CloneData) (m : SessionMgr) (now ctr : ℕ)
      → get_empty_slot m.sessions ≡ none
      → clone_session now ctr d m ≡ (err no_space, m)
  unfolding clone_session add_session
  refused d m now ctr full = rw (full, add_session) refl

  -- When the sessions are full and the eviction of the least recently used one goes through,
  -- `add_session` succeeds: the new session stands where it says.
  pub add_session_lem :
      (d : CloneData) (x : ExchangeMgr maps) (pool : BufferPool)
      → get_empty_slot x.sess_mgr.sessions ≡ none
      → (evict_session maps aead env (get_lru env.now x.sess_mgr.sessions) (x, pool)).0 ≡ ok tt
      → (i : ℕ) × ((Receiving.add_session maps aead env d (x, pool)).0 ≡ ok i)
        × (get_elem? (Receiving.add_session maps aead env d (x, pool)).1.0.sess_mgr.sessions i
            ≡ some (some (Session.clone env.now env.retry_ctr d)))
  unfolding Receiving.add_session clone_session
  add_session_lem d x pool full done =
      let index = get_lru env.now x.sess_mgr.sessions in
      let after = (evict_session maps aead env index (x, pool)).1 in
      let evicted = evict_session-IsEvicted index x pool done in
      let (i, found, at) =
        added (Session.clone env.now env.retry_ctr d) after.0.sess_mgr (index, evicted.freed) in
      let retried =
        bind_then (λ s. evict_session maps aead env (get_lru env.now s.0.sess_mgr.sessions) s)
          (λ _. on_sessions maps (clone_session env.now env.retry_ctr d)) (x, pool) tt done in
      let first = refused d x.sess_mgr env.now env.ctr full in
      (
        i,
        rw (first, Receiving.add_session) (rw retried found),
        rw (first, Receiving.add_session) (rw retried at),
      )
