-- ===== src/Transport/Exchange/Manager/Acks.antt =====
-- matter/src/transport/exchange.rs: `pending_acks`, into a set of four ids.
use matter_rs.Base.{
  ℕ, ◌+◌, ◌≤◌, ◌<◌, ◌≡◌, ◌↔◌, inl, inr, refl, ap, ◌∙◌, arith, Bool, true, false, ◌||◌, ◌==◌,
  if◌then◌else◌, length, List, [], ◌∷◌, Option, some, none, ok, panic, Bool-cases, ==_refl, ==_iff,
}
use native.Mathlib.Decide.{dec_lt}
use matter_rs.Base.Search.{count}
use matter_rs.Base.LinearMap.{lookup, IsDistinct}
use matter_rs.Base.LinearMap.Removal.{keys_where, holds, among, among-entries, get-empty}
use matter_rs.Transport.Mrp.{Clock}
use matter_rs.Transport.Mrp
use matter_rs.Transport.Exchange.{Exchange}
use matter_rs.Transport.Exchange.Manager.{
  Maps, ExchangeMgr, max_mrp_entries, note_acks, pending_acks,
}
use matter_rs.Transport.Exchange.Manager.Cleanup.{marked, insert_room}

marked-insert :
    (same in_rest : Bool) (o : Option (Unit {0}))
    → marked in_rest (if same then some tt else o) ≡ marked (same || in_rest) o
marked-insert same in_rest o = ground arith

marked_iff : (b : Bool) (o : Option (Unit {0})) → o ≡ marked b none → (o ≡ some tt) ↔ (b ≡ true)
marked_iff true o e = (λ h. refl, λ h. e)
marked_iff false o e = (λ h. cc, λ h. cc)

module _ (maps : Maps) (c : Clock) where
  abbrev pub is_due : Exchange → Bool
  is_due e = Mrp.is_ack_ready c e.mrp

  -- How many exchanges have an acknowledgement to be sent.
  abbrev pub due : List (ℕ × Exchange) → ℕ
  due xs = count (λ x. is_due x.1) xs

  due_yes :
      (id : ℕ) (e : Exchange) (xs : List (ℕ × Exchange))
      → is_due e ≡ true
      → due ((id, e) ∷ xs) ≡ 1 + due xs
  unfolding count
  due_yes id e xs d = rw d refl

  due_no :
      (id : ℕ) (e : Exchange) (xs : List (ℕ × Exchange))
      → is_due e ≡ false
      → due ((id, e) ∷ xs) ≡ due xs
  unfolding count
  due_no id e xs d = rw d (omega arith)

  noted :
      (xs : List (ℕ × Exchange)) (t : maps.acked.Map)
      → length (maps.acked.entries t) + due xs ≤ max_mrp_entries
      → (t' : maps.acked.Map) × (note_acks maps c xs t ≡ ok t')
        × ((i : ℕ)
            → maps.acked.get i t' ≡ marked (among i (keys_where is_due xs)) (maps.acked.get i t))
  unfolding note_acks count
  noted [] t h = (t, refl, λ i. refl)
  noted ((id, e) ∷ xs) t h = elim (Bool-cases (is_due e)) [
    | inl d ↦
        let counted = due_yes id e xs d in
        let (done, size) = insert_room maps.acked id tt t (omega (arith, counted)) in
        let (t', same, all) =
          noted xs (maps.acked.insert id tt t).1 (omega (arith, counted, size)) in
        (
          t',
          rw (d, done) same,
          λ i. rw d (
              all i
              ∙ ap (marked (among i (keys_where is_due xs))) (maps.acked.get-insert i id tt t done)
              ∙ marked-insert (i == id) (among i (keys_where is_due xs)) (maps.acked.get i t)),
        )
    | inr d ↦
        let counted = due_no id e xs d in
        let (t', same, all) = noted xs t (omega (arith, counted)) in
        (t', rw d same, λ i. rw d (all i))
  ]

  -- No id of the list is in the set.
  abbrev Disjoint : List (ℕ × Exchange) → maps.acked.Map → Type 0
  Disjoint xs t = (i : ℕ) (e : Exchange) → lookup i xs ≡ some e → maps.acked.get i t ≡ none

  Disjoint-tail :
      (id : ℕ) (e : Exchange) (xs : List (ℕ × Exchange)) (t : maps.acked.Map)
      → lookup id xs ≡ none
      → Disjoint ((id, e) ∷ xs) t
      → Disjoint xs t
  Disjoint-tail id e xs t d j i e' l = elim (Bool-cases (i == id)) [
    | inl same ↦ let e : i ≡ id = (==_iff i id).0 same in cc
    | inr other ↦ j i e' (rw other l)
  ]

  Disjoint-insert :
      (id : ℕ) (xs : List (ℕ × Exchange)) (t : maps.acked.Map)
      → lookup id xs ≡ none
      → Disjoint xs t
      → (maps.acked.insert id tt t).0 ≡ true
      → Disjoint xs (maps.acked.insert id tt t).1
  Disjoint-insert id xs t d j done i e' l =
      ground (arith, maps.acked.get-insert i id tt t done, j i e' l)

  overfull :
      (xs : List (ℕ × Exchange)) (t : maps.acked.Map)
      → IsDistinct xs
      → Disjoint xs t
      → max_mrp_entries < length (maps.acked.entries t) + due xs
      → note_acks maps c xs t ≡ panic
  unfolding note_acks count
  overfull [] t d j h = absurd (omega (arith, maps.acked.length-entries t))
  overfull ((id, e) ∷ xs) t d j h = elim (Bool-cases (is_due e)) [
    | inl due_now ↦
        let counted = due_yes id e xs due_now in
        let fresh = j id e (rw (==_refl id) refl) in
        let rest = Disjoint-tail id e xs t d.0 j in
        elim (dec_lt (length (maps.acked.entries t)) max_mrp_entries) [
          | yes room ↦
              let (done, size) = maps.acked.insert_new id tt t fresh room in
              rw (due_now, done)
                (overfull xs (maps.acked.insert id tt t).1 d.1
                  (Disjoint-insert id xs t d.0 rest done) (omega (arith, counted, size)))
          | no full ↦
              let refused =
                maps.acked.insert_full id tt t fresh (omega (arith, maps.acked.length-entries t)) in
              rw (due_now, refused.0) refl
        ]
    | inr later ↦
        rw later
          (overfull xs t d.1 (Disjoint-tail id e xs t d.0 j) (omega (arith, due_no id e xs later)))
  ]

  -- Into an empty set, the ids of the exchanges with an acknowledgement to be sent are noted down
  -- where there are at most four of them, and no other ids; with more than four it is a panic.
  pub pending_acks_lem :
      (x : ExchangeMgr maps)
      → (due (maps.exchanges.entries x.exchanges) ≤ max_mrp_entries
          → (t : maps.acked.Map) × (pending_acks maps c x maps.acked.empty ≡ ok t)
            × ((id : ℕ)
                → (maps.acked.get id t ≡ some tt)
                  ↔ (holds is_due (maps.exchanges.get id x.exchanges) ≡ true)))
        × (max_mrp_entries < due (maps.exchanges.entries x.exchanges)
            → pending_acks maps c x maps.acked.empty ≡ panic)
  unfolding pending_acks
  pending_acks_lem x =
      let all = maps.exchanges.entries x.exchanges in
      let none_yet = maps.acked.entries-empty in
      (
        λ few.
            let (t, done, ids) = noted all maps.acked.empty (omega (arith, ap length none_yet)) in
            (
              t,
              done,
              λ id.
                  let e =
                    ids id
                    ∙ ap (marked (among id (keys_where is_due all))) (get-empty maps.acked id)
                    ∙ ap (λ b. marked b none)
                        (among-entries maps.exchanges is_due id x.exchanges) in
                  marked_iff _ _ e,
            ),
        λ many.
            overfull all maps.acked.empty (maps.exchanges.entries-IsDistinct x.exchanges)
              (λ i e l. get-empty maps.acked i) (omega (arith, ap length none_yet)),
      )
