-- ===== src/Ldap/Modify.antt =====
-- crates/ldap/src/modify.rs: the changes of a modify request, one after the other.
-- crates/kerberos/src/lib.rs: `sync_kerberos_if_enabled`.
pub mod Profile
pub mod KeySet
pub mod Keys
pub mod Frame
pub mod Laws
pub mod Tests
use klldap.Base.{
  ℕ, Bool, true, false, not, ◌&&◌, Option, none, some, List, [], ◌∷◌, ◌++◌, if◌then◌else◌, length,
  Result, ok, err,
}
use klldap.Text.{Str, codes, str_eq, to_ascii_lowercase}
use klldap.Auth.{UserId, ValidationResults, can_change_password}
use klldap.Domain.{User, DomainError, UpdateUserRequest}
use klldap.Domain.Deserialize.{Parsers}
use klldap.Access.{get_readable_handler, get_writeable_handler}
use klldap.Ldap.Error.{LdapResultCode, LdapError, LdapResult}
use klldap.Ldap.Dn.{get_user_id_from_distinguished_name}
use klldap.Ldap.Filter.{LdapInfo}
use klldap.Ldap.Scope.{LdapPartialAttribute}
use klldap.Ldap.World.{
  Outcome, done, failed, panicked, Run, return, fail, call, call_ignored, ◌>>=◌, World, LdapOp,
}
use klldap.Ldap.Password.{
  ldap_error, sync_enabled, try_change_password, refused, has_admin_group, groups_unread,
}
use klldap.Ldap.Modify.Profile.{
  LdapModifyType, add, delete, replace, is_protected, profile_update, unwilling,
}

-- Of ldap3_proto.
pub record LdapModify : Type 0 where
  pub operation : LdapModifyType
  pub modification : LdapPartialAttribute

pub record LdapModifyRequest : Type 0 where
  pub dn : Str
  pub changes : List LdapModify

abbrev debug_operation : LdapModifyType → Str
debug_operation add = codes "Add"
debug_operation delete = codes "Delete"
debug_operation replace = codes "Replace"

abbrev pub is_replace : LdapModifyType → Bool
is_replace replace = true
is_replace operation = false

abbrev pub is_delete : LdapModifyType → Bool
is_delete delete = true
is_delete operation = false

abbrev pub is_some {ℓ} : {A : Type ℓ} → Option A → Bool
is_some none = false
is_some (some a) = true

-- `Option::ok_or_else(…)?`.
abbrev pub or_fail {ℓ} : {S E : Type 0} {A : Type ℓ} → E → Option A → Run S E A
or_fail e none = fail e
or_fail e (some a) = return a

abbrev pub is_password : Str → Bool
is_password atype = str_eq (to_ascii_lowercase atype) (codes "userpassword")

module _ {S D O : Type 0} (w : World S D O) (ldap_info : LdapInfo) (parsers : Parsers D) where
  -- `filter_map` over `from_utf8`.
  abbrev pub push_some : Option Str → List Str → List Str
  push_some none rest = rest
  push_some (some s) rest = s ∷ rest

  abbrev pub utf8_values : List (List ℕ) → List Str
  utf8_values [] = []
  utf8_values (v ∷ vs) = push_some (w.from_utf8 v) (utf8_values vs)

  -- Its result is only logged.
  unfoldable pub sync_kerberos_if_enabled : Bool → Str → Str → Run S LdapError (Unit {0})
  sync_kerberos_if_enabled true user_id plain_password =
      call_ignored (w.sync_kerberos_principal user_id plain_password)
  sync_kerberos_if_enabled false user_id plain_password = return tt

  abbrev sync_user :
      UserId → Str → Result DomainError (User D) × S → Outcome LdapError (Unit {0}) × S
  sync_user user_id plain_pass (ok user, s) =
      sync_kerberos_if_enabled (sync_enabled user) user_id.text plain_pass s
  sync_user user_id plain_pass (err e, s) = (done tt, s)

  abbrev pub sync_text : World S D O → UserId → Option Str → Run S LdapError (Unit {0})
  sync_text readable user_id none = return tt
  sync_text readable user_id (some plain_pass) =
      λ s. sync_user user_id plain_pass (readable.get_user_details user_id s)

  abbrev wrong_number : List (List ℕ) → LdapError
  wrong_number vals =
      ldap_error LdapResultCode.invalid_attribute_syntax
        (codes "Wrong number of values for password attribute: " ++ w.display_usize (length vals))

  abbrev pub replace_password : World S D O → UserId → List (List ℕ) → Run S LdapError (Unit {0})
  replace_password readable user_id (value ∷ []) = do
    changed ← try_change_password w ldap_info user_id value
    sync_text readable user_id (w.from_utf8 value)
  replace_password readable user_id [] = fail (wrong_number [])
  replace_password readable user_id (v ∷ (v' ∷ vs)) = fail (wrong_number (v ∷ (v' ∷ vs)))

  abbrev pub unsupported_operation : LdapModify → LdapError
  unsupported_operation change = unwilling (
      codes "Unsupported operation: `"
      ++ (debug_operation change.operation
          ++ (codes "` for `" ++ (change.modification.atype ++ codes "`"))))

  unfoldable pub change_user_password :
      World S D O → UserId → ValidationResults → Bool → LdapModify → Run S LdapError (Unit {0})
  change_user_password readable user_id credentials user_is_admin change =
      if not (is_replace change.operation)
      then fail (unsupported_operation change)
      else if not (can_change_password credentials user_id user_is_admin)
      then fail (refused w ldap_info credentials user_id)
      else replace_password readable user_id change.modification.vals

  abbrev pub profile_refused : ValidationResults → UserId → LdapError
  profile_refused credentials user_id = ldap_error LdapResultCode.insufficient_access_rights (
      codes "User `"
      ++ (credentials.user.text
          ++ (codes "` cannot modify attributes of user `" ++ (user_id.text ++ codes "`"))))

  abbrev pub deletion_refused : Str → LdapError
  deletion_refused atype = ldap_error LdapResultCode.insufficient_access_rights (
      codes "Deletion of `"
      ++ (atype ++ codes "` is not allowed via LDAP Modify (use GraphQL or protected path)"))

  abbrev pub not_updated : DomainError → LdapError
  not_updated e =
      ldap_error LdapResultCode.operations_error
        (codes "Error while updating user via LDAP Modify: " ++ w.pretty_debug_error e)

  abbrev pub requested_update :
      World S D O → UserId → LdapModify → Run S LdapError (UpdateUserRequest D)
  requested_update readable user_id change =
      profile_update parsers user_id w.display_error readable.get_user_details change.operation
        change.modification.atype (to_ascii_lowercase change.modification.atype)
        (utf8_values change.modification.vals)

  abbrev pub send_update :
      World S D O → World S D O → UserId → LdapModify → Run S LdapError (Unit {0})
  send_update readable writeable user_id change = do
    update_req ← requested_update readable user_id change
    call not_updated (writeable.update_user update_req)

  unfoldable pub change_profile :
      World S D O
      → World S D O
      → UserId
      → ValidationResults
      → Bool
      → LdapModify
      → Run S LdapError (Unit {0})
  change_profile readable writeable user_id credentials user_is_admin change =
      if not (can_change_password credentials user_id user_is_admin)
      then fail (profile_refused credentials user_id)
      else if is_delete change.operation
          && is_protected (to_ascii_lowercase change.modification.atype)
      then fail (deletion_refused change.modification.atype)
      else send_update readable writeable user_id change

  unfoldable pub handle_modify_change :
      World S D O
      → World S D O
      → UserId
      → ValidationResults
      → Bool
      → LdapModify
      → Run S LdapError (Unit {0})
  handle_modify_change readable writeable user_id credentials user_is_admin change =
      if is_password change.modification.atype
      then change_user_password readable user_id credentials user_is_admin change
      else change_profile readable writeable user_id credentials user_is_admin change

  abbrev cannot_modify : ValidationResults → UserId → Str → LdapError
  cannot_modify credentials uid rest = ldap_error LdapResultCode.insufficient_access_rights (
      codes "User `"
      ++ (credentials.user.text
          ++ (codes "` cannot modify user `" ++ (uid.text ++ (codes "`" ++ rest)))))

  abbrev pub cannot_read : ValidationResults → UserId → LdapError
  cannot_read credentials uid = cannot_modify credentials uid []

  abbrev pub cannot_write : ValidationResults → UserId → LdapError
  cannot_write credentials uid = cannot_modify credentials uid (codes " (no write permission)")

  -- `to_lowercase` stands for `char::to_lowercase` of the standard library.
  module _ (to_lowercase : ℕ → Str) where
    -- The body of the loop.
    unfoldable pub apply_change :
        ValidationResults → UserId → LdapModify → Run S LdapError (Unit {0})
    apply_change credentials uid change = do
      readable ← or_fail (cannot_read credentials uid) (get_readable_handler w credentials uid)
      writeable ← or_fail (cannot_write credentials uid) (get_writeable_handler w credentials uid)
      groups ← call (groups_unread w ldap_info to_lowercase) (readable.get_user_groups uid)
      handle_modify_change readable writeable uid credentials
          (has_admin_group w ldap_info to_lowercase groups) change

    unfoldable pub apply_changes :
        ValidationResults → UserId → List LdapModify → Run S LdapError (Unit {0})
    apply_changes credentials uid [] = return tt
    apply_changes credentials uid (change ∷ changes) = do
      applied ← apply_change credentials uid change
      apply_changes credentials uid changes

    abbrev pub modify_user :
        ValidationResults → LdapResult UserId → List LdapModify → Run S LdapError (List LdapOp)
    modify_user credentials (ok uid) changes = do
      applied ← apply_changes credentials uid changes
      return (LdapOp.modify_response LdapResultCode.success [] ∷ [])
    modify_user credentials (err e) changes =
        fail (ldap_error LdapResultCode.invalid_dn_syntax (codes "Invalid username: " ++ e.message))

    abbrev pub target : LdapModifyRequest → LdapResult UserId
    target request =
        get_user_id_from_distinguished_name request.dn ldap_info.base_dn ldap_info.base_dn_str

    unfoldable pub handle_modify_request :
        ValidationResults → LdapModifyRequest → Run S LdapError (List LdapOp)
    handle_modify_request credentials request =
        modify_user credentials (target request) request.changes
