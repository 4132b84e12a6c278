-- ===== src/Ldap.antt =====
-- crates/ldap: the LDAP front end.
pub mod Error
pub mod Ou
pub mod Dn
pub mod Filter
pub mod Fields
pub mod Simplify
pub mod Filters
pub mod Scope
pub mod World
pub mod Password
pub mod Modify
pub mod Create
pub mod Delete
pub mod Compare
pub mod Attributes
pub mod Wildcards
pub mod Session
