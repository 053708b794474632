-- ===== src/Transport/Exchange/Manager/Eviction.antt =====
-- matter/src/transport/exchange.rs: `evict_session`, and the calls that need a free session.
use matter_rs.Base.{
  ℕ, ◌≡◌, refl, sym, ap, ◌∙◌, true, ◌==◌, if◌then◌else◌, List, [], ◌∷◌, get_elem?, some, none,
  Result, ok, Option-cases, Bool-cases, ==_refl, ==_iff, inl, inr,
}
use matter_rs.Base.Exec.{bind_keeps, bind_inv}
use matter_rs.Base.LinearMap.{lookup, IsDistinct}
use matter_rs.Base.LinearMap.Removal.{without, get-remove_where}
use matter_rs.Base.Bytes.{LittleEndian}
use matter_rs.Base.Flags.{Bitflags}
use matter_rs.SecureChannel.Status.{create_sc_status_report, close_session}
use matter_rs.Transport.Crypto.{Aead}
use matter_rs.Transport.Packet.{Packet}
use matter_rs.Transport.Session.{Session}
use matter_rs.Transport.Session
use matter_rs.Transport.Session.Table.{Sessions}
use matter_rs.Transport.Session.Manager.{SessionMgr}
use matter_rs.Transport.Exchange.{Exchange, on_session}
use matter_rs.Transport.Exchange
use matter_rs.Transport.Exchange.Manager.{
  Env, Maps, Exchanges, ExchangeMgr, of_session, find_of_session, send_on, send_close,
  remove_session, vacate,
}
use matter_rs.Transport.Exchange.Manager.OtherSessions.{
  SameBut, Kept, remove_lem, on_session-Kept, send-Kept,
}

module _ (maps : Maps) where
  find_of_session_lem :
      (index : ℕ) (xs : List (ℕ × Exchange)) (id : ℕ) (e : Exchange)
      → IsDistinct xs
      → find_of_session maps index xs ≡ some (id, e)
      → (lookup id xs ≡ some e) × (of_session maps index e ≡ true)
  unfolding find_of_session
  find_of_session_lem index [] id e d h = cc
  find_of_session_lem index ((k, x) ∷ xs) id e d h = elim (Bool-cases (of_session maps index x)) [
    | inl here ↦
        let same_value : x ≡ e = cc (rw here at h) in
        let same_key : k ≡ id = cc (rw here at h) in
        (
          rw (sym same_key, ==_refl k) (ap some same_value),
          ap (of_session maps index) (sym same_value) ∙ here,
        )
    | inr later ↦
        let (found, of) = find_of_session_lem index xs id e d.1 (rw later at h) in
        (
          elim (Bool-cases (id == k)) [
            | inl same ↦
                let eq : id ≡ k = (==_iff id k).0 same in cc (d.0, found, ap (λ y. lookup y xs) eq)
            | inr other ↦ rw other found
          ],
          of,
        )
  ]

  assign_unrelated :
      (index id : ℕ) (e e' : Exchange) (m : Exchanges maps)
      → maps.exchanges.get id m ≡ some e
      → of_session maps index e ≡ true
      → of_session maps index e' ≡ true
      → (i : ℕ)
      → without (of_session maps index) (maps.exchanges.get i (maps.exchanges.assign id e' m))
        ≡ without (of_session maps index) (maps.exchanges.get i m)
  assign_unrelated index id e e' m stored of of' i =
      let test = of_session maps index in
      let after = maps.exchanges.get-assign i id e' e m stored in
      elim (Bool-cases (i == id)) [
        | inl same ↦
            let eq : i ≡ id = (==_iff i id).0 same in
            let here : maps.exchanges.get i m ≡ some e = cc in
            let there : maps.exchanges.get i (maps.exchanges.assign id e' m) ≡ some e' =
              after ∙ ap (λ b. if b then some e' else maps.exchanges.get i m) same in
            rw (here, there, of, of') refl
        | inr other ↦
            ap (without test)
              (after ∙ ap (λ b. if b then some e' else maps.exchanges.get i m) other)
      ]

  -- The exchanges that do not belong to the session.
  abbrev Unrelated : ℕ → ExchangeMgr maps → ExchangeMgr maps → Type 0
  Unrelated index a b =
      (id : ℕ)
      → without (of_session maps index) (maps.exchanges.get id a.exchanges)
        ≡ without (of_session maps index) (maps.exchanges.get id b.exchanges)

  module _ ⦃le : LittleEndian⦄ ⦃bf : Bitflags⦄ (aead : Aead) (now index : ℕ)
      (sent : Result (Unit {0})) (before : Sessions) where
    -- Of an exchange and what it sends on: its session, and the other sessions.
    abbrev Intact : Exchange × (SessionMgr × Packet) → Type 0
    Intact (e, s) = (of_session maps index e ≡ true) × Kept index before s

    exchange_kept :
        (s : Exchange × (SessionMgr × Packet))
        → Intact s
        → Intact (Exchange.send aead now index sent s).1
    unfolding Exchange.send
    exchange_kept =
        bind_keeps Intact _ _ (λ s h. h)
          (λ _.
            bind_keeps Intact _ _
              (λ s h. (h.0, on_session-Kept index Session.pre_send before s.1 h.1))
              (λ _.
                bind_keeps Intact _ _ (λ s h. h)
                  (λ _ s h. (h.0, send-Kept aead now index sent before s.1 h.1))))

    send_on_kept :
        (id : ℕ) (e : Exchange) (x : ExchangeMgr maps) (p : Packet)
        → maps.exchanges.get id x.exchanges ≡ some e
        → of_session maps index e ≡ true
        → SameBut index x.sess_mgr.sessions before
        → Unrelated index (send_on maps aead now sent index id e (x, p)).1.0 x
          × SameBut index
              (send_on maps aead now sent index id e (x, p)).1.0.sess_mgr.sessions
              before
    unfolding send_on
    send_on_kept id e x p stored of same =
        let (of', same') = exchange_kept (e, (x.sess_mgr, p)) (of, same) in
        (λ i. assign_unrelated index id e _ x.exchanges stored of of' i, same')

  -- What an eviction does: the session's exchanges are gone and its slot is free, and the other
  -- exchanges and sessions are as they were.
  pub record IsEvicted (index : ℕ) (x x' : ExchangeMgr maps) : Type 0 where
    pub closed :
        (id : ℕ)
        → maps.exchanges.get id x'.exchanges
          ≡ without (of_session maps index) (maps.exchanges.get id x.exchanges)
    pub freed : get_elem? x'.sess_mgr.sessions index ≡ some none
    pub kept : SameBut index x'.sess_mgr.sessions x.sess_mgr.sessions

  module _ ⦃le : LittleEndian⦄ ⦃bf : Bitflags⦄ (aead : Aead) (env : Env) (index : ℕ) where
    send_close_kept :
        (tx : Packet) (x : ExchangeMgr maps)
        → Unrelated index (send_close maps aead env index tx x).1 x
          × SameBut index
              (send_close maps aead env index tx x).1.sess_mgr.sessions
              x.sess_mgr.sessions
    unfolding send_close
    send_close_kept tx x =
        elim (Option-cases (find_of_session maps index (maps.exchanges.entries x.exchanges))) [
          | inl e ↦ rw (e, send_close) (λ id. refl, λ j ne. refl)
          | inr ((id, e), found) ↦
              let (there, of) =
                find_of_session_lem index (maps.exchanges.entries x.exchanges) id e
                  (maps.exchanges.entries-IsDistinct x.exchanges) found in
              rw (found, send_close)
                (send_on_kept aead env.now index env.evict_sent x.sess_mgr.sessions id e x tx
                  (maps.exchanges.get_lem id x.exchanges ∙ there) of (λ j ne. refl))
        ]

    remove_session_lem :
        (x : ExchangeMgr maps)
        → (remove_session maps index x).0 ≡ ok tt
        → IsEvicted index x (remove_session maps index x).1
    unfolding remove_session
    remove_session_lem x done =
        let (free, rest) = remove_lem index x.sess_mgr done in
        record {
          closed = λ id. get-remove_where maps.exchanges (of_session maps index) id x.exchanges;
          freed = free;
          kept = rest;
        }

    -- An eviction that succeeds takes away the session and all its exchanges, and nothing else.
    pub vacate_lem :
        (tx : Packet) (x : ExchangeMgr maps)
        → (vacate maps aead env index tx x).0 ≡ ok tt
        → IsEvicted index x (vacate maps aead env index tx x).1
    unfolding vacate
    vacate_lem tx x done =
        let close_tx = (create_sc_status_report close_session none tx).1 in
        let (_, _, first, done') = bind_inv _ _ x tt done in
        let (_, _, second, done'') = bind_inv _ _ x tt done' in
        let (others, sessions) = send_close_kept close_tx x in
        let removed = remove_session_lem (send_close maps aead env index close_tx x).1 done'' in
        rw (first, second)
          (record {
            closed = λ id. removed.closed id ∙ others id;
            freed = removed.freed;
            kept = λ j ne. removed.kept j ne ∙ sessions j ne;
          })
