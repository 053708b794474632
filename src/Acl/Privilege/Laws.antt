-- ===== src/Acl/Privilege/Laws.antt =====
-- matter/src/data_model/objects/privilege.rs: what is written of a privilege and read again.
use matter_rs.Base.{◌≡◌, refl, true, false, ok}
use matter_rs.Base.Flags.{Bitflags}
use matter_rs.Acl.Privilege.{Privilege, operate, manage, admin, privilege_number, privilege_of}

module _ ⦃bf : Bitflags⦄ where
  -- Of a privilege that contains OPERATE and not ADMIN, whether it contains MANAGE or not, the number
  -- is written that is read as MANAGE.
  pub privilege_of-privilege_number :
      (p : Privilege)
      → bf.contains p operate ≡ true
      → bf.contains p admin ≡ false
      → privilege_of (privilege_number p) ≡ ok manage
  unfolding privilege_of privilege_number
  privilege_of-privilege_number p h k = rw (h, k) refl
