-- ===== src/Acl/Tests.antt =====
-- The theorems of access control at concrete inputs.
use matter_rs.Base.{ℕ, ◌≡◌, ◌↔◌, ◌⊎◌, refl, true, false, [], ◌∷◌, get_elem?, some, none, ok}
use matter_rs.Base.Flags.{reference_flags}
use matter_rs.Acl.Privilege.{operate, manage, view, privilege_of, privilege_number}
use matter_rs.Acl.Privilege
use matter_rs.Acl.Privilege.Laws.{privilege_of-privilege_number}
use matter_rs.Acl.Entry.{AclEntry, AccessReq, case_, pase, auth_eq}
use matter_rs.Acl.Manager.{empty, adds, edits, after, allow, delete_for_fabric}
use matter_rs.Acl.Manager.Laws.{IsBounded, after-IsBounded, allow-delete_for_fabric}
use matter_rs.Acl.Manager.Granting.{Grants, allow_iff}

privilege_of-privilege_number_example : privilege_of (privilege_number operate) ≡ ok manage
privilege_of-privilege_number_example = privilege_of-privilege_number operate refl refl

abbrev entry : AclEntry
entry = record {
  privilege = view;
  auth_mode = case_;
  subjects = some 5 ∷ none ∷ none ∷ none ∷ [];
  targets = none ∷ none ∷ none ∷ [];
  fab_idx = some 1;
}

-- A node of fabric 1 that reads an attribute which asks for the privilege to view.
abbrev request : AccessReq
request = record {
  accessor = record { fab_idx = 1; id = 5; auth_mode = case_ };
  object = record {
    path = record { endpoint = some 0; cluster = some 6; leaf = some 0 };
    target_perms = some 0x11;
    operation = Privilege.read;
  };
}

allowed : allow request (some entry ∷ none ∷ []) ≡ true
unfolding allow
allowed = refl

after-IsBounded_example :
    IsBounded (after none (edits 0 1 entry ∷ adds entry ∷ adds entry ∷ []) empty)
after-IsBounded_example =
    after-IsBounded none (edits 0 1 entry ∷ adds entry ∷ adds entry ∷ []) (refl, (tt, (tt, tt)))

allow-delete_for_fabric_example :
    allow request (delete_for_fabric none 1 (some entry ∷ none ∷ [])).1 ≡ false
allow-delete_for_fabric_example = allow-delete_for_fabric none request (some entry ∷ none ∷ []) refl

allow_iff_example : (allow request (some entry ∷ none ∷ []) ≡ true) ↔ (
    (auth_eq case_ pase ≡ true)
    ⊎ ((i : ℕ) × (e : AclEntry) × (get_elem? (some entry ∷ none ∷ []) i ≡ some (some e))
        × Grants request e))
allow_iff_example = allow_iff request (some entry ∷ none ∷ [])
