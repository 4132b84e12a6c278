-- ===== src/Ldap/Password.antt =====
-- crates/ldap/src/password.rs: binding, and the change of a password by an extended operation.
pub mod Laws
pub mod Tests
use klldap.Base.{
  ℕ, Bool, true, false, not, ◌&&◌, Option, none, some, List, [], ◌∷◌, ◌++◌, any, ◌==◌,
  if◌then◌else◌, Result, ok, err,
}
use klldap.Text.{Str, codes, str_eq, to_ascii_lowercase, is_empty}
use klldap.Auth.{UserId, ValidationResults, can_change_password}
use klldap.Domain.{
  ℤ, pos, negsuc, AttributeValue, Cardinality, singleton, unbounded, Attribute, User, GroupDetails,
  DomainError, group_name_eq,
}
use klldap.Access.{get_readable_handler}
use klldap.Ldap.Error.{LdapResultCode, LdapError, LdapResult}
use klldap.Ldap.Dn.{get_user_id_from_distinguished_name}
use klldap.Ldap.Filter.{LdapInfo}
use klldap.Ldap.World.{
  Outcome, done, failed, panicked, Run, return, fail, expect, call, call_ignored, ◌>>=◌, World,
  LdapOp,
}

-- Of ldap3_proto.
pub data LdapBindCred : Type 0 where
  simple : Str → LdapBindCred
  sasl : LdapBindCred

pub record LdapBindRequest : Type 0 where
  pub dn : Str
  pub cred : LdapBindCred

pub record LdapPasswordModifyRequest : Type 0 where
  pub user_identity : Option Str
  pub old_password : Option Str
  pub new_password : Option Str

abbrev pub ldap_error : LdapResultCode → Str → LdapError
ldap_error code message = record { code = code; message = message }

-- The pattern `Integer(Singleton(1))`.
abbrev is_one : {D : Type 0} → AttributeValue D → Bool
is_one (AttributeValue.integer (singleton (pos n))) = n == 1
is_one (AttributeValue.integer (singleton (negsuc n))) = false
is_one (AttributeValue.integer (unbounded l)) = false
is_one (AttributeValue.string l) = false
is_one (AttributeValue.avatar l) = false
is_one (AttributeValue.date_time l) = false

abbrev pub sync_enabled : {D : Type 0} → User D → Bool
sync_enabled user =
    any (λ a. str_eq a.name.text (codes "kerberossync") && is_one a.value) user.attributes

module _ {S D O : Type 0} (w : World S D O) (ldap_info : LdapInfo) where
  abbrev pub bind_refused : DomainError → LdapError
  bind_refused e = ldap_error LdapResultCode.invalid_credentials []

  abbrev pub bind_with : UserId → LdapBindCred → Run S LdapError UserId
  bind_with user_id (simple password) = do
    bound ← call bind_refused (w.bind user_id password)
    return user_id
  bind_with user_id sasl =
      fail (ldap_error LdapResultCode.unwilling_to_perform (codes "SASL not supported"))

  abbrev pub bind_named : LdapResult UserId → LdapBindCred → Run S LdapError UserId
  bind_named (ok user_id) cred = bind_with user_id cred
  bind_named (err e) cred = fail (ldap_error LdapResultCode.naming_violation e.message)

  abbrev pub named : Str → LdapResult UserId
  named dn =
      get_user_id_from_distinguished_name (to_ascii_lowercase dn) ldap_info.base_dn
        ldap_info.base_dn_str

  unfoldable pub do_bind : LdapBindRequest → Run S LdapError UserId
  do_bind request =
      if is_empty request.dn
      then fail (
          ldap_error LdapResultCode.inappropriate_authentication
            (codes "Anonymous bind not allowed"))
      else bind_named (named request.dn) request.cred

  unfoldable pub change_password : UserId → List ℕ → Run S Str (Unit {0})
  change_password user password = do
    started ← call (λ e. e) (w.start_registration password)
    response ← call w.pretty_debug_error (w.registration_start user started.1)
    upload ← call (λ e. e) (w.finish_registration started.0 password response.1)
    call w.pretty_debug_error (w.registration_finish response.0 upload)

  abbrev context : Str → Outcome Str (Unit {0}) × S → Outcome LdapError (Unit {0}) × S
  context message (done u, s) = (done tt, s)
  context message (failed e, s) = (failed (ldap_error LdapResultCode.other (message ++ e)), s)
  context message (panicked, s) = (panicked, s)

  abbrev pub try_change_password : UserId → List ℕ → Run S LdapError (Unit {0})
  try_change_password uid password s =
      context (codes "Error while changing the password: ") (change_password uid password s)

  abbrev sync_if : Bool → UserId → Str → Run S LdapError (Unit {0})
  sync_if true uid password = do
    sync ← call_ignored (w.sync_kerberos_principal uid.text password)
    call_ignored (w.ensure_kerberos_principal_consistency uid true)
  sync_if false uid password = return tt

  -- What follows the change of the password: Kerberos takes it over if the user's attribute says so.
  unfoldable pub sync_kerberos : ValidationResults → UserId → Str → Run S LdapError (List LdapOp)
  sync_kerberos credentials uid password = do
    readable ← expect (get_readable_handler w credentials uid)
    user_details ←
        call
          (λ e.
            ldap_error LdapResultCode.operations_error
              (codes "Failed to fetch user for Kerberos sync: " ++ w.display_error e))
          (readable.get_user_details uid)
    synced ← sync_if (sync_enabled user_details) uid password
    return (LdapOp.extended_response LdapResultCode.success [] ∷ [])

  abbrev pub refused : ValidationResults → UserId → LdapError
  refused credentials uid = ldap_error LdapResultCode.insufficient_access_rights (
      codes "User `"
      ++ (credentials.user.text
          ++ (codes "` cannot modify the password of user `" ++ (uid.text ++ codes "`"))))

  -- `to_lowercase` stands for `char::to_lowercase` of the standard library.
  module _ (to_lowercase : ℕ → Str) where
    abbrev pub has_admin_group : List (GroupDetails D) → Bool
    has_admin_group groups =
        any (λ g. group_name_eq to_lowercase g.display_name (record { text = codes "lldap_admin" }))
          groups

    abbrev pub change_if : Bool → ValidationResults → UserId → Str → Run S LdapError (List LdapOp)
    change_if true credentials uid password = do
      changed ← try_change_password uid (w.as_bytes password)
      sync_kerberos credentials uid password
    change_if false credentials uid password = fail (refused credentials uid)

    abbrev pub groups_unread : DomainError → LdapError
    groups_unread e =
        ldap_error LdapResultCode.operations_error
          (codes "Internal error while requesting user's groups: " ++ w.pretty_debug_error e)

    -- The arm for a name that parses.
    unfoldable pub modify_password :
        ValidationResults → UserId → Str → Run S LdapError (List LdapOp)
    modify_password credentials uid password = do
      readable ← expect (get_readable_handler w credentials uid)
      groups ← call groups_unread (readable.get_user_groups uid)
      change_if (can_change_password credentials uid (has_admin_group groups)) credentials uid
          password

    abbrev pub modify_named :
        ValidationResults → LdapResult UserId → Str → Run S LdapError (List LdapOp)
    modify_named credentials (ok uid) password = modify_password credentials uid password
    modify_named credentials (err e) password =
        fail (ldap_error LdapResultCode.invalid_dn_syntax (codes "Invalid username: " ++ e.message))

    abbrev missing : LdapError
    missing =
        ldap_error LdapResultCode.constraint_violation (codes "Missing either user_id or password")

    abbrev pub modify_requested :
        ValidationResults → Option Str → Option Str → Run S LdapError (List LdapOp)
    modify_requested credentials (some user) (some password) =
        modify_named credentials (named user) password
    modify_requested credentials (some user) none = fail missing
    modify_requested credentials none new_password = fail missing

    unfoldable pub do_password_modification :
        ValidationResults → LdapPasswordModifyRequest → Run S LdapError (List LdapOp)
    do_password_modification credentials request =
        modify_requested credentials request.user_identity request.new_password
