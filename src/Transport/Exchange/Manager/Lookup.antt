-- ===== src/Transport/Exchange/Manager/Lookup.antt =====
-- matter/src/transport/exchange.rs: `_get`, the exchange that a message belongs to.
use matter_rs.Base.{
  ℕ, ◌<◌, ◌≡◌, ◌≢◌, ◌⊎◌, inl, inr, refl, sym, ap, ◌∙◌, arith, Bool, true, false, ◌&&◌, ◌==◌,
  ==_refl, if◌then◌else◌, length, some, none, ok, err, no_space, no_exchange, Option-cases,
}
use matter_rs.Base.Exec.{◌>>=◌}
use matter_rs.Transport.Exchange.{Exchange, Role, initiator, responder, same_role}
use matter_rs.Transport.Exchange
use matter_rs.Transport.Exchange.Manager.{Maps, Exchanges, get, admit, max_exchanges}
use native.Mathlib.Decide.{dec_lt}

same_role_refl : (r : Role) → same_role r r ≡ true
same_role_refl initiator = refl
same_role_refl responder = refl

same_role-eq : (r s : Role) → same_role r s ≡ true → r ≡ s
same_role-eq initiator initiator h = refl
same_role-eq responder responder h = refl
same_role-eq initiator responder h = cc
same_role-eq responder initiator h = cc

module _ (maps : Maps) (sess_idx id : ℕ) (role : Role) where
  -- Whether a message of this session and role may go to the exchange.
  abbrev pub belongs : Exchange → Bool
  belongs e = same_role e.role role && (sess_idx == e.sess_idx)

  get_present :
      (create : Bool) (m : Exchanges maps) (e : Exchange)
      → maps.exchanges.get id m ≡ some e
      → get maps sess_idx id role create m ≡ ((if belongs e then ok e else err no_exchange), m)
  unfolding get admit ◌>>=◌
  get_present create m e h = rw h (rw h refl)

  get_refused :
      (m : Exchanges maps)
      → maps.exchanges.get id m ≡ none
      → get maps sess_idx id role false m ≡ (err no_space, m)
  unfolding get admit ◌>>=◌
  get_refused m h = rw h refl

  get_created :
      (m : Exchanges maps)
      → maps.exchanges.get id m ≡ none
      → length (maps.exchanges.entries m) < max_exchanges
      → ((get maps sess_idx id role true m).0 ≡ ok (Exchange.new id sess_idx role))
        × ((i : ℕ)
            → maps.exchanges.get i (get maps sess_idx id role true m).1
              ≡ (if i == id then some (Exchange.new id sess_idx role) else maps.exchanges.get i m))
  unfolding get admit ◌>>=◌ Exchange.new
  get_created m h room =
      let e = Exchange.new id sess_idx role in
      let (done, size) = maps.exchanges.insert_new id e m h room in
      let here =
        maps.exchanges.get-insert id id e m done
        ∙ ap (λ b. if b then some e else maps.exchanges.get id m) (==_refl id) in
      (
        rw (h, done) (rw (here, same_role_refl role, ==_refl sess_idx) refl),
        λ i. rw (h, done) (maps.exchanges.get-insert i id e m done),
      )

  get_full :
      (m : Exchanges maps)
      → maps.exchanges.get id m ≡ none
      → length (maps.exchanges.entries m) ≡ max_exchanges
      → ((get maps sess_idx id role true m).0 ≡ err no_space)
        × ((i : ℕ)
            → maps.exchanges.get i (get maps sess_idx id role true m).1 ≡ maps.exchanges.get i m)
  unfolding get admit ◌>>=◌ Exchange.new
  get_full m h full =
      let (failed, same) = maps.exchanges.insert_full id (Exchange.new id sess_idx role) m h full in
      (rw (h, failed) refl, λ i. rw (h, failed) (same i))

  -- What holds of an exchange that `_get` answers.
  pub record IsFound (m m' : Exchanges maps) (e : Exchange) : Type 0 where
    pub right_role : e.role ≡ role
    pub right_session : e.sess_idx ≡ sess_idx
    pub stored : maps.exchanges.get id m' ≡ some e
    pub others : (i : ℕ) → i ≢ id → maps.exchanges.get i m' ≡ maps.exchanges.get i m

  get_present-IsFound :
      (create : Bool) (m : Exchanges maps) (e e' : Exchange)
      → maps.exchanges.get id m ≡ some e'
      → (get maps sess_idx id role create m).0 ≡ ok e
      → IsFound m (get maps sess_idx id role create m).1 e
  get_present-IsFound create m e e' h done =
      let outcome = get_present create m e' h in
      let answer : (if belongs e' then ok e' else err no_exchange) ≡ ok e =
        sym (ap (λ x. x.0) outcome) ∙ done in
      let yes_belongs : belongs e' ≡ true = ground arith in
      let same : e' ≡ e = ground arith in
      rw outcome (record {
        right_role = same_role-eq e.role role (ground arith);
        right_session = ground arith;
        stored = cc;
        others = λ i ne. refl;
      })

  get_absent-IsFound :
      (create : Bool) (m : Exchanges maps) (e : Exchange)
      → maps.exchanges.get id m ≡ none
      → (get maps sess_idx id role create m).0 ≡ ok e
      → IsFound m (get maps sess_idx id role create m).1 e
  unfolding Exchange.new
  get_absent-IsFound false m e h done = cc (get_refused m h)
  get_absent-IsFound true m e h done =
      elim (dec_lt (length (maps.exchanges.entries m)) max_exchanges) [
        | no full ↦ cc (get_full m h (omega (arith, maps.exchanges.length-entries m))).0
        | yes room ↦
            let (answer, all) = get_created m h room in
            let same : Exchange.new id sess_idx role ≡ e = cc (answer, done) in
            record {
              right_role = ap (λ x. x.role) (sym same);
              right_session = ap (λ x. x.sess_idx) (sym same);
              stored = all id ∙ rw (==_refl id) (ap some same);
              others = λ i ne. all i ∙ ground arith;
            }
      ]

  -- Whatever exchange `_get` answers, it has the role and the session that were asked for and stands
  -- in the map under the id; the other ids keep what they had.
  pub get-IsFound :
      (create : Bool) (m : Exchanges maps) (e : Exchange)
      → (get maps sess_idx id role create m).0 ≡ ok e
      → IsFound m (get maps sess_idx id role create m).1 e
  get-IsFound create m e done = elim (Option-cases (maps.exchanges.get id m)) [
    | inl h ↦ get_absent-IsFound create m e h done
    | inr (e', h) ↦ get_present-IsFound create m e e' h done
  ]

  -- When `_get` answers: with an exchange of the id, exactly if that has the role and the session;
  -- without one, a new exchange where it may be made and there is a free place, and `NoSpace`
  -- otherwise, with the ids' exchanges unchanged.
  pub get_lem :
      (create : Bool) (m : Exchanges maps)
      → ((e : Exchange)
          → maps.exchanges.get id m ≡ some e
          → get maps sess_idx id role create m ≡ ((if belongs e then ok e else err no_exchange), m))
        × (maps.exchanges.get id m ≡ none
            → ((create ≡ true)
                × (length (maps.exchanges.entries m) < max_exchanges)
                × ((get maps sess_idx id role create m).0 ≡ ok (Exchange.new id sess_idx role)))
              ⊎ (((create ≡ false) ⊎ (length (maps.exchanges.entries m) ≡ max_exchanges))
                  × ((get maps sess_idx id role create m).0 ≡ err no_space)
                  × ((i : ℕ)
                      → maps.exchanges.get i (get maps sess_idx id role create m).1
                        ≡ maps.exchanges.get i m)))
  get_lem create m = (get_present create m, absent create)
    where
      absent :
          (create : Bool)
          → maps.exchanges.get id m ≡ none
          → ((create ≡ true)
              × (length (maps.exchanges.entries m) < max_exchanges)
              × ((get maps sess_idx id role create m).0 ≡ ok (Exchange.new id sess_idx role)))
            ⊎ (((create ≡ false) ⊎ (length (maps.exchanges.entries m) ≡ max_exchanges))
                × ((get maps sess_idx id role create m).0 ≡ err no_space)
                × ((i : ℕ)
                    → maps.exchanges.get i (get maps sess_idx id role create m).1
                      ≡ maps.exchanges.get i m))
      absent false h =
          let e = get_refused m h in
          inr (inl refl, ap (λ x. x.0) e, λ i. ap (λ x. maps.exchanges.get i x.1) e)
      absent true h = elim (dec_lt (length (maps.exchanges.entries m)) max_exchanges) [
        | yes room ↦ inl (refl, room, (get_created m h room).0)
        | no full ↦
            let all : length (maps.exchanges.entries m) ≡ max_exchanges =
              omega (arith, maps.exchanges.length-entries m) in
            let (failed, same) = get_full m h all in inr (inr all, failed, same)
      ]
