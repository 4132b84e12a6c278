-- ===== src/Ldap/Error.antt =====
-- crates/ldap/src/core/error.rs, and the result codes of ldap3_proto that the crate names.
use klldap.Base.{Result}
use klldap.Text.{Str}

pub data LdapResultCode : Type 0 where
  success operations_error protocol_error compare_false compare_true : LdapResultCode
  constraint_violation invalid_attribute_syntax no_such_object invalid_dn_syntax : LdapResultCode
  inappropriate_authentication invalid_credentials insufficient_access_rights : LdapResultCode
  unwilling_to_perform naming_violation entry_already_exists other : LdapResultCode

pub record LdapError : Type 0 where
  pub code : LdapResultCode
  pub message : Str

abbrev pub LdapResult {ℓ} : Type ℓ → Type ℓ
LdapResult A = Result LdapError A
