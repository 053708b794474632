-- ===== src/Acl/Manager/Laws.antt =====
-- matter/src/acl.rs: the bound on the entries of a fabric, and what is left when a fabric goes.
use matter_rs.Base.{
  ℕ, zero, suc, ◌≤◌, ◌≡◌, refl, subst, sym, ap, ◌∙◌, true, false, leb, if◌then◌else◌, List, [], ◌∷◌,
  map, set, get_elem?, replicate, Option, some, none, is_none, opt_eq, Option-cases, Bool-cases,
  inl, inr, arith,
}
use matter_rs.Base.Search.{position, count, count-set, position_found}
use matter_rs.Base.Flags.{Bitflags}
use matter_rs.Acl.Entry.{AclEntry, AccessReq, Accessor, pase, auth_eq, match_accessor, allows_one}
use matter_rs.Acl.Entry
use matter_rs.Acl.Manager.{
  Entries, Psm, empty, store, is_of, add, edit, delete, put, for_index_in_fabric, delete_for_fabric,
  erase_all, entries_per_fabric, Call, adds, edits, deletes, deletes_fabric, erases, call, after,
  any_allows, allow, max_acl_entries,
}

-- No fabric has more entries than the minimum that each is granted.
pub record IsBounded (entries : Entries) : Type 0 where
  pub bounded : (fab_idx : Option ℕ) → count (is_of fab_idx) entries ≤ entries_per_fabric

store_entries : (psm : Psm) (entries : Entries) → (store psm entries).1 ≡ entries
store_entries none entries = refl
store_entries (some psm) entries = refl

opt_eq→eq : (a b : Option ℕ) → opt_eq a b ≡ true → a ≡ b
opt_eq→eq none none h = refl
opt_eq→eq none (some b) h = cc
opt_eq→eq (some a) none h = cc
opt_eq→eq (some a) (some b) h = ap some (ground arith)

-- The place that is found holds an entry of the fabric.
for_index_found :
    (index fab_idx : ℕ) (entries : Entries) (i : ℕ)
    → for_index_in_fabric index fab_idx entries ≡ some i
    → (e : Option AclEntry) × (get_elem? entries i ≡ some e) × (is_of (some fab_idx) e ≡ true)
unfolding for_index_in_fabric
for_index_found index fab_idx [] i h = cc
for_index_found zero fab_idx (e ∷ es) zero h = (e, refl, ground arith)
for_index_found zero fab_idx (e ∷ es) (suc i) h = for_index_found zero fab_idx es i (ground arith)
for_index_found (suc index) fab_idx (e ∷ es) zero h = absurd (ground arith)
for_index_found (suc index) fab_idx (e ∷ es) (suc i) h =
    elim (Bool-cases (is_of (some fab_idx) e)) [
      | inl q ↦ for_index_found index fab_idx es i (ground arith)
      | inr q ↦ for_index_found (suc index) fab_idx es i (ground arith)
    ]

count-replicate : (f : Option ℕ) (n : ℕ) → count (is_of f) (replicate n none) ≡ 0
unfolding count is_of
count-replicate f zero = refl
count-replicate f (suc n) = omega (arith, count-replicate f n)

count-erased : (f : Option ℕ) (entries : Entries) → count (is_of f) (map (λ e. none) entries) ≡ 0
unfolding count is_of
count-erased f [] = refl
count-erased f (e ∷ es) = omega (arith, count-erased f es)

count-kept :
    (f : Option ℕ) (fab_idx : ℕ) (entries : Entries)
    → count (is_of f) (map (λ e. if is_of (some fab_idx) e then none else e) entries)
      ≤ count (is_of f) entries
unfolding count is_of
count-kept f fab_idx [] = omega arith
count-kept f fab_idx (e ∷ es) = elim (Bool-cases (is_of (some fab_idx) e)) [
  | inl q ↦ rw q (omega (arith, count-kept f fab_idx es))
  | inr q ↦ rw q (omega (arith, count-kept f fab_idx es))
]

-- A slot that is overwritten by an entry of the fabric that it held, or by none.
put-IsBounded :
    (psm : Psm) (index fab_idx : ℕ) (new : Option AclEntry) (entries : Entries)
    → ((f : Option ℕ) → is_of f new ≡ true → f ≡ some fab_idx)
    → IsBounded entries
    → IsBounded (put psm index fab_idx new entries).1
put-IsBounded psm index fab_idx new entries h b =
    elim (Option-cases (for_index_in_fabric index fab_idx entries)) [
      | inl q ↦ rw (q, put) b
      | inr (i, q) ↦
          let (old, here, mine) = for_index_found index fab_idx entries i q in
          rw (q, put, store_entries psm (set entries i new))
            (record {
              bounded = λ f. elim (Bool-cases (is_of f new)) [
                | inl n ↦
                    let mine' : is_of f old ≡ true =
                      subst (λ x. is_of x old ≡ true) (sym (h f n)) mine in
                    ground
                      (arith, count-set (is_of f) entries i old new here, b.bounded f, mine', n)
                | inr n ↦ ground (arith, count-set (is_of f) entries i old new here, b.bounded f)
              ];
            })
    ]

add-IsBounded :
    (psm : Psm) (entry : AclEntry) (entries : Entries)
    → IsBounded entries
    → IsBounded (add psm entry entries).1
unfolding add is_of
add-IsBounded psm entry entries b =
    elim (Bool-cases (leb entries_per_fabric (count (is_of entry.fab_idx) entries))) [
      | inl full ↦ rw full b
      | inr room ↦ elim (Option-cases (position is_none entries)) [
        | inl q ↦ rw (room, q) b
        | inr (i, q) ↦
            let (old, here, free) = position_found is_none entries i q in
            rw (room, q, store_entries psm (set entries i (some entry)))
              (record {
                bounded = λ f. elim (Bool-cases (is_of f (some entry))) [
                  | inl n ↦
                      let e : entry.fab_idx ≡ f = opt_eq→eq entry.fab_idx f n in
                      let few : leb entries_per_fabric (count (is_of f) entries) ≡ false =
                        subst (λ x. leb entries_per_fabric (count (is_of x) entries) ≡ false) e
                          room in
                      ground (arith, count-set (is_of f) entries i old (some entry) here, n, few)
                  | inr n ↦
                      ground
                        (arith, count-set (is_of f) entries i old (some entry) here, b.bounded f)
                ];
              })
      ]
    ]

-- An entry that is put in the place of another is of the fabric that it is edited for.
abbrev pub IsScopedCall : Call → Type 0
IsScopedCall (adds e) = Unit {0}
IsScopedCall (edits index fab_idx e) = e.fab_idx ≡ some fab_idx
IsScopedCall (deletes index fab_idx) = Unit {0}
IsScopedCall (deletes_fabric fab_idx) = Unit {0}
IsScopedCall erases = Unit {0}

abbrev pub IsScoped : List Call → Type 0
IsScoped [] = Unit {0}
IsScoped (c ∷ cs) = IsScopedCall c × IsScoped cs

call-IsBounded :
    (psm : Psm) (c : Call) (entries : Entries)
    → IsScopedCall c
    → IsBounded entries
    → IsBounded (call psm c entries)
unfolding call edit delete delete_for_fabric erase_all is_of
call-IsBounded psm (adds e) entries own b = add-IsBounded psm e entries b
call-IsBounded psm (edits index fab_idx e) entries own b =
    put-IsBounded psm index fab_idx (some e) entries (λ f h. sym (opt_eq→eq e.fab_idx f h) ∙ own) b
call-IsBounded psm (deletes index fab_idx) entries own b =
    put-IsBounded psm index fab_idx none entries (λ f h. absurd (ground arith)) b
call-IsBounded psm (deletes_fabric fab_idx) entries own b =
    rw (store_entries psm (map (λ e. if is_of (some fab_idx) e then none else e) entries))
      (record { bounded = λ f. omega (arith, count-kept f fab_idx entries, b.bounded f) })
call-IsBounded psm erases entries own b =
    rw (store_entries psm (map (λ e. none) entries))
      (record { bounded = λ f. omega (arith, count-erased f entries) })

-- After any history of calls on a new manager without a store, in which each entry that is put in
-- the place of another by `edit` is of the fabric that it is edited for, and whatever the store of
-- the calls answers, no fabric has more than its three entries.
pub after-IsBounded : (psm : Psm) (cs : List Call) → IsScoped cs → IsBounded (after psm cs empty)
unfolding after empty
after-IsBounded psm [] own = record {
  bounded = λ f. omega (arith, count-replicate f max_acl_entries);
}
after-IsBounded psm (c ∷ cs) (own, owns) =
    call-IsBounded psm c (after psm cs empty) own (after-IsBounded psm cs owns)

module _ ⦃bf : Bitflags⦄ where
  -- An entry of another fabric allows nothing.
  other_fabric :
      (req : AccessReq) (e : AclEntry)
      → is_of (some req.accessor.fab_idx) (some e) ≡ false
      → Entry.allow req e ≡ false
  unfolding Entry.allow match_accessor is_of
  other_fabric req e h = ground arith

  kept_allow :
      (req : AccessReq) (entries : Entries)
      → any_allows req (map (λ e. if is_of (some req.accessor.fab_idx) e then none else e) entries)
        ≡ false
  unfolding any_allows is_of
  kept_allow req [] = refl
  kept_allow req (none ∷ es) = kept_allow req es
  kept_allow req (some e ∷ es) = elim (Bool-cases (is_of (some req.accessor.fab_idx) (some e))) [
    | inl q ↦ rw q (kept_allow req es)
    | inr q ↦ rw (q, other_fabric req e q) (kept_allow req es)
  ]

  -- Once the entries of a fabric are deleted, no request of an accessor of that fabric is allowed,
  -- other than in a PASE session, whatever entries there were and whatever the store answers.
  pub allow-delete_for_fabric :
      (psm : Psm) (req : AccessReq) (entries : Entries)
      → auth_eq req.accessor.auth_mode pase ≡ false
      → allow req (delete_for_fabric psm req.accessor.fab_idx entries).1 ≡ false
  unfolding allow delete_for_fabric
  allow-delete_for_fabric psm req entries h =
      rw
        (
          h,
          store_entries psm
              (map (λ e. if is_of (some req.accessor.fab_idx) e then none else e) entries),
        )
        (kept_allow req entries)
