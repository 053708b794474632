-- ===== src/Acl.antt =====
-- matter/src/acl.rs, data_model/objects/privilege.rs and attribute.rs: access control.
pub mod Privilege
pub mod Entry
pub mod Manager
mod Tests
