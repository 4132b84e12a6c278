-- ===== src/Ldap/Delete.antt =====
-- crates/ldap/src/delete.rs: users and groups are deleted by name. The caller passes the handler that
-- administrators get, which is the back end itself.
pub mod Laws
pub mod Tests
use klldap.Base.{ℕ, Option, none, some, List, [], ◌∷◌, ◌++◌, find?, Result, ok, err}
use klldap.Text.{Str, codes}
use klldap.Auth.{UserId}
use klldap.Domain.{GroupName, GroupId, Group, DomainError, group_name_eq}
use klldap.Handlers.{GroupRequestFilter}
use klldap.Ldap.Error.{LdapResultCode, LdapError}
use klldap.Ldap.Dn.{
  UserOrGroupName, user, group, into_ldap_error, get_user_or_group_id_from_distinguished_name,
}
use klldap.Ldap.Filter.{LdapInfo}
use klldap.Ldap.World.{Run, return, fail, expect, call, call_ignored, ◌>>=◌, World, LdapOp}

abbrev ldap_error : LdapResultCode → Str → LdapError
ldap_error code message = record { code = code; message = message }

abbrev success : List LdapOp
success = LdapOp.del_response LdapResultCode.success [] ∷ []

module _ {S D O : Type 0} (w : World S D O) where
  abbrev operation_failed : Str → DomainError → LdapError
  operation_failed message e =
      ldap_error LdapResultCode.operations_error (message ++ w.debug_error e)

  abbrev user_not_found : DomainError → LdapError
  user_not_found (DomainError.entity_not_found name) =
      ldap_error LdapResultCode.no_such_object (codes "Could not find user")
  user_not_found e = operation_failed (codes "Error while finding user: ") e

  unfoldable pub delete_user : UserId → Run S LdapError (List LdapOp)
  delete_user user_id = do
    details ← call user_not_found (w.get_user_details user_id)
    deleted ← call (operation_failed (codes "Error while deleting user: ")) (w.delete_user user_id)
    cleaned ← call_ignored (w.delete_kerberos_principal user_id.text)
    return success

  -- `to_lowercase` stands for `char::to_lowercase` of the standard library.
  module _ (to_lowercase : ℕ → Str) where
    abbrev group_id_or_fail : Option (Group D) → Run S LdapError GroupId
    group_id_or_fail (some g) = return g.id
    group_id_or_fail none =
        fail (ldap_error LdapResultCode.no_such_object (codes "Could not find group"))

    unfoldable pub delete_group : GroupName → Run S LdapError (List LdapOp)
    delete_group group_name = do
      groups ←
          call (operation_failed (codes "Error while finding group: "))
            (w.list_groups (some (GroupRequestFilter.display_name group_name)))
      group_id ←
          group_id_or_fail
            (find? (λ g. group_name_eq to_lowercase g.display_name group_name) groups)
      deleted ←
          call (operation_failed (codes "Error while deleting group: ")) (w.delete_group group_id)
      return success

    abbrev expected : Str → Str
    expected base_dn_str =
        codes "\"uid=id,ou=people,"
        ++ (base_dn_str ++ (codes "\" or \"cn=id,ou=groups," ++ (base_dn_str ++ codes "\"")))

    abbrev delete_named : LdapInfo → Str → UserOrGroupName → Run S LdapError (List LdapOp)
    delete_named ldap_info request (user user_id) = delete_user user_id
    delete_named ldap_info request (group group_name) = delete_group group_name
    delete_named ldap_info request unclear =
        fail (into_ldap_error unclear request (expected ldap_info.base_dn_str))

    unfoldable pub delete_user_or_group : LdapInfo → Str → Run S LdapError (List LdapOp)
    delete_user_or_group ldap_info request =
        delete_named ldap_info request
          (get_user_or_group_id_from_distinguished_name request ldap_info.base_dn)
