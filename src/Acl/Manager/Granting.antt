-- ===== src/Acl/Manager/Granting.antt =====
-- matter/src/acl.rs: `allow`, and what the list of entries grants.
use matter_rs.Base.{
  ℕ, zero, suc, ◌≡◌, ◌↔◌, ◌⊎◌, inl, inr, refl, ap, ◌∙◌, Bool, true, false, ◌==◌, if◌then◌else◌, [],
  ◌∷◌, get_elem?, some, none, opt_eq, Bool-cases, Option-cases, arith,
}
use matter_rs.Base.Flags.{Bitflags}
use matter_rs.Acl.Privilege.{Access, is_ok}
use matter_rs.Acl.Entry.{
  AclEntry, AccessReq, Accessor, AccessDesc, AuthMode, pase, auth_eq, match_accessor,
  match_access_desc, allows_one, covers,
}
use matter_rs.Acl.Entry
use matter_rs.Acl.Entry.Laws.{TakenBy, AllFree, allows_one_iff}
use matter_rs.Acl.Manager.{Entries, any_allows, allow}

module _ ⦃bf : Bitflags⦄ where
  -- What the entry asks for: the session's kind and fabric, a subject and a target that are listed or
  -- no such list, and a privilege with which the object's permissions allow the operation.
  pub record Grants (req : AccessReq) (e : AclEntry) : Type 0 where
    pub same_mode : auth_eq e.auth_mode req.accessor.auth_mode ≡ true
    pub same_fabric : opt_eq e.fab_idx (some req.accessor.fab_idx) ≡ true
    pub subject : AllFree e.subjects ⊎ TakenBy (λ i. req.accessor.id == i) e.subjects
    pub target : AllFree e.targets ⊎ TakenBy (covers req.object.path) e.targets
    pub perms : Access
    pub has_perms : req.object.target_perms ≡ some perms
    pub privileged : is_ok perms req.object.operation e.privilege ≡ true

  entry-Grants : (req : AccessReq) (e : AclEntry) → Entry.allow req e ≡ true → Grants req e
  unfolding Entry.allow match_accessor match_access_desc
  entry-Grants req e h = elim (Option-cases req.object.target_perms) [
    | inl q ↦ absurd (ground arith)
    | inr (a, q) ↦ record {
      same_mode = ground arith;
      same_fabric = ground arith;
      subject = (allows_one_iff (λ i. req.accessor.id == i) e.subjects).0 (ground arith);
      target = (allows_one_iff (covers req.object.path) e.targets).0 (ground arith);
      perms = a;
      has_perms = q;
      privileged = ground arith;
    }
  ]

  Grants-entry : (req : AccessReq) (e : AclEntry) → Grants req e → Entry.allow req e ≡ true
  unfolding Entry.allow match_accessor match_access_desc
  Grants-entry req e g =
      let s = (allows_one_iff (λ i. req.accessor.id == i) e.subjects).1 g.subject in
      let t = (allows_one_iff (covers req.object.path) e.targets).1 g.target in
      rw (g.same_mode, s, g.same_fabric, t, g.has_perms, g.privileged) refl

  any_allows-Grants :
      (req : AccessReq) (es : Entries)
      → any_allows req es ≡ true
      → (i : ℕ) × (e : AclEntry) × (get_elem? es i ≡ some (some e)) × Grants req e
  unfolding any_allows
  any_allows-Grants req [] h = absurd cc
  any_allows-Grants req (none ∷ es) h =
      let (i, e, q, g) = any_allows-Grants req es h in (suc i, e, q, g)
  any_allows-Grants req (some x ∷ es) h = elim (Bool-cases (Entry.allow req x)) [
    | inl q ↦ (0, x, refl, entry-Grants req x q)
    | inr q ↦ let (i, e, r, g) = any_allows-Grants req es (ground arith) in (suc i, e, r, g)
  ]

  first : (a b : Bool) → a ≡ true → (if a then true else b) ≡ true
  first true b h = refl
  first false b h = absurd cc

  second : (a b : Bool) → b ≡ true → (if a then true else b) ≡ true
  second true b h = refl
  second false b h = h

  Grants-any_allows :
      (req : AccessReq) (es : Entries) (i : ℕ) (e : AclEntry)
      → get_elem? es i ≡ some (some e)
      → Entry.allow req e ≡ true
      → any_allows req es ≡ true
  unfolding any_allows
  Grants-any_allows req [] i e h g = absurd cc
  Grants-any_allows req (none ∷ es) zero e h g = absurd cc
  Grants-any_allows req (none ∷ es) (suc i) e h g = Grants-any_allows req es i e h g
  Grants-any_allows req (some x ∷ es) zero e h g =
      let q : x ≡ e = cc in
      first (Entry.allow req x) (any_allows req es) (ap (Entry.allow req) q ∙ g)
  Grants-any_allows req (some x ∷ es) (suc i) e h g =
      second (Entry.allow req x) (any_allows req es) (Grants-any_allows req es i e h g)

  -- A request is allowed exactly in a PASE session, or where some entry of the list grants it.
  pub allow_iff :
      (req : AccessReq) (es : Entries)
      → (allow req es ≡ true) ↔ (
          (auth_eq req.accessor.auth_mode pase ≡ true)
          ⊎ ((i : ℕ) × (e : AclEntry) × (get_elem? es i ≡ some (some e)) × Grants req e))
  unfolding allow
  allow_iff req es = (forward, backward)
    where
      forward :
          allow req es ≡ true
          → (auth_eq req.accessor.auth_mode pase ≡ true)
            ⊎ ((i : ℕ) × (e : AclEntry) × (get_elem? es i ≡ some (some e)) × Grants req e)
      forward h = elim (Bool-cases (auth_eq req.accessor.auth_mode pase)) [
        | inl q ↦ inl q
        | inr q ↦ inr (any_allows-Grants req es (ground arith))
      ]

      backward :
          (auth_eq req.accessor.auth_mode pase ≡ true)
            ⊎ ((i : ℕ) × (e : AclEntry) × (get_elem? es i ≡ some (some e)) × Grants req e)
          → allow req es ≡ true
      backward (inl q) = ground arith
      backward (inr (i, e, q, g)) =
          let r = Grants-any_allows req es i e q (Grants-entry req e g) in ground arith
