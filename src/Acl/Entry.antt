-- ===== src/Acl/Entry.antt =====
-- matter/src/acl.rs: requests, and the entries of the access control list.
pub mod Laws
use matter_rs.Base.{
  ℕ, Bool, true, false, not, ◌&&◌, ◌||◌, ◌==◌, if◌then◌else◌, List, [], ◌∷◌, replicate, set, Option,
  some, none, is_none, opt_eq, Result, ok, err, no_space,
}
use matter_rs.Base.Exec.{Exec}
use matter_rs.Base.Search.{position}
use matter_rs.Base.Flags.{Bitflags}
use matter_rs.Acl.Privilege.{Privilege, Access, is_ok}

abbrev pub subjects_per_entry : ℕ
subjects_per_entry = 4

abbrev pub targets_per_entry : ℕ
targets_per_entry = 3

pub data AuthMode : Type 0 where
  pase case_ group invalid_mode : AuthMode

-- The derived `PartialEq`.
abbrev pub auth_eq : AuthMode → AuthMode → Bool
auth_eq pase pase = true
auth_eq case_ case_ = true
auth_eq group group = true
auth_eq invalid_mode invalid_mode = true
auth_eq _ _ = false

-- The handle of the list that an accessor carries is the list that the checks are called on.
pub record Accessor : Type 0 where
  pub fab_idx : ℕ
  pub id : ℕ
  pub auth_mode : AuthMode

-- A path to a cluster, or to a command or an attribute (`leaf`) of it; what is missing is a wildcard.
pub record GenericPath : Type 0 where
  pub endpoint : Option ℕ
  pub cluster : Option ℕ
  pub leaf : Option ℕ

pub record AccessDesc : Type 0 where
  pub path : GenericPath
  pub target_perms : Option Access
  pub operation : Access

pub record AccessReq : Type 0 where
  pub accessor : Accessor
  pub object : AccessDesc

unfoldable pub new_req : Accessor → GenericPath → Access → AccessReq
new_req accessor path operation = record {
  accessor = accessor;
  object = record { path = path; target_perms = none; operation = operation };
}

unfoldable pub set_target_perms : Access → AccessReq → AccessReq
set_target_perms perms req =
    let object = req.object in record req { object = record object { target_perms = some perms } }

pub record Target : Type 0 where
  pub cluster : Option ℕ
  pub endpoint : Option ℕ
  pub device_type : Option ℕ

pub record AclEntry : Type 0 where
  pub privilege : Privilege
  pub auth_mode : AuthMode
  pub subjects : List (Option ℕ)
  pub targets : List (Option Target)
  pub fab_idx : Option ℕ

unfoldable pub new_entry : ℕ → Privilege → AuthMode → AclEntry
new_entry fab_idx privilege auth_mode = record {
  privilege = privilege;
  auth_mode = auth_mode;
  subjects = replicate subjects_per_entry none;
  targets = replicate targets_per_entry none;
  fab_idx = some fab_idx;
}

unfoldable pub add_subject : ℕ → Exec AclEntry (Unit {0})
unfolding position
add_subject subject e = elim (position is_none e.subjects) [
  | none ↦ (err no_space, e)
  | some index ↦ (ok tt, record e { subjects = set e.subjects index (some subject) })
]

unfoldable pub add_target : Target → Exec AclEntry (Unit {0})
unfolding position
add_target target e = elim (position is_none e.targets) [
  | none ↦ (err no_space, e)
  | some index ↦ (ok tt, record e { targets = set e.targets index (some target) })
]

-- The loop that `match_accessor` and `match_access_desc` have in common: over the slots that are
-- taken, with `allow` and `entries_exist`.
unfoldable pub scan {ℓ} : {A : Type ℓ} → (A → Bool) → List (Option A) → Bool → Bool → Bool × Bool
scan test [] allow entries_exist = (allow, entries_exist)
scan test (none ∷ xs) allow entries_exist = scan test xs allow entries_exist
scan test (some x ∷ xs) allow entries_exist = scan test xs (if test x then true else allow) true

-- No slot that is taken implies allow for all.
unfoldable pub allows_one {ℓ} : {A : Type ℓ} → (A → Bool) → List (Option A) → Bool
unfolding scan
allows_one test xs =
    let (allow, entries_exist) = scan test xs false false in
    if not entries_exist then true else allow

unfoldable pub match_accessor : Accessor → AclEntry → Bool
unfolding allows_one
match_accessor accessor e =
    if not (auth_eq e.auth_mode accessor.auth_mode)
    then false
    else allows_one (λ i. accessor.id == i) e.subjects && opt_eq e.fab_idx (some accessor.fab_idx)

-- The test of one target.
abbrev pub covers : GenericPath → Target → Bool
covers path t =
    (is_none t.endpoint || opt_eq t.endpoint path.endpoint)
    && (is_none t.cluster || opt_eq t.cluster path.cluster)

module _ ⦃bf : Bitflags⦄ where
  unfoldable pub match_access_desc : AccessDesc → AclEntry → Bool
  unfolding allows_one is_ok
  match_access_desc object e =
      if allows_one (covers object.path) e.targets
      then (elim object.target_perms [
        | some access ↦ is_ok access object.operation e.privilege
        | none ↦ false
      ])
      else false

  unfoldable pub allow : AccessReq → AclEntry → Bool
  unfolding match_accessor match_access_desc
  allow req e = match_accessor req.accessor e && match_access_desc req.object e
