-- ===== src/Ldap/Create.antt =====
-- crates/ldap/src/create.rs: add requests. The caller passes the handler that administrators get, which
-- is the back end itself.
pub mod Request
pub mod Unit
pub mod Laws
pub mod Tests
use klldap.Base.{ℕ, Bool, true, false, Option, none, some, List, [], ◌∷◌, ◌++◌, Result, ok, err}
use klldap.Text.{Str, codes}
use klldap.Auth.{UserId}
use klldap.Domain.{GroupName, DomainError, CreateUserRequest}
use klldap.Domain.Deserialize.{Parsers}
use klldap.Ldap.Error.{LdapResultCode, LdapError, LdapResult}
use klldap.Ldap.Ou.{get_internal_ou_from_dn_parts}
use klldap.Ldap.Dn.{
  UserOrGroupName, user, group, parse_distinguished_name, into_ldap_error,
  get_user_or_group_id_from_distinguished_name,
}
use klldap.Ldap.Filter.{LdapInfo}
use klldap.Ldap.Scope.{LdapPartialAttribute}
use klldap.Ldap.Password.{ldap_error}
use klldap.Ldap.World.{Run, return, fail, call, call_ignored, ◌>>=◌, World, LdapOp}
use klldap.Ldap.Create.Request.{
  HashMap, get, or_else, parse_attributes, attribute_map, create_user_request, create_group_request,
}

-- Of ldap3_proto.
pub record LdapAddRequest : Type 0 where
  pub dn : Str
  pub attributes : List LdapPartialAttribute

-- The operator `?` on a result that needs no waiting.
abbrev pub lift : {S E A : Type 0} → Result E A → Run S E A
lift (ok a) = return a
lift (err e) = fail e

abbrev pub success : List LdapOp
success = LdapOp.add_response LdapResultCode.success [] ∷ []

module _ {S D O : Type 0} (w : World S D O) (ldap_info : LdapInfo) (parsers : Parsers D) where
  abbrev pub not_created : Str → DomainError → LdapError
  not_created what e =
      ldap_error LdapResultCode.operations_error
        (codes "Could not create " ++ (what ++ (codes ": " ++ w.pretty_debug_error e)))

  abbrev sync_plain : UserId → Option Str → Run S LdapError (Unit {0})
  sync_plain user_id none = return tt
  sync_plain user_id (some plain) = call_ignored (w.sync_kerberos_principal user_id.text plain)

  abbrev sync_bytes : UserId → Option (List ℕ) → Run S LdapError (Unit {0})
  sync_bytes user_id none = return tt
  sync_bytes user_id (some pw_bytes) = sync_plain user_id (w.from_utf8 pw_bytes)

  abbrev pub sync_created : Bool → UserId → HashMap → Run S LdapError (Unit {0})
  sync_created false user_id attributes = return tt
  sync_created true user_id attributes =
      sync_bytes user_id
        (or_else (get (codes "userpassword") attributes) (get (codes "userPassword") attributes))

  abbrev pub requested : UserId → HashMap → Str → LdapResult (CreateUserRequest D × Bool)
  requested user_id attributes internal_ou =
      create_user_request parsers w.from_utf8 w.debug_utf8_error w.as_bytes user_id attributes
        internal_ou

  abbrev pub map_of : List (Str × List ℕ) → Str → HashMap
  map_of entries internal_ou =
      attribute_map parsers w.from_utf8 w.debug_utf8_error w.as_bytes entries internal_ou

  unfoldable pub create_user :
      UserId → List LdapPartialAttribute → Str → Run S LdapError (List LdapOp)
  create_user user_id attributes internal_ou = do
    entries ← lift (parse_attributes attributes)
    wanted ← lift (requested user_id (map_of entries internal_ou) internal_ou)
    created ← call (not_created (codes "user")) (w.create_user wanted.0)
    synced ← sync_created wanted.1 user_id (map_of entries internal_ou)
    return success

  unfoldable pub create_group : GroupName → Str → Run S LdapError (List LdapOp)
  create_group group_name internal_ou = do
    wanted ← lift (
        create_group_request parsers w.from_utf8 w.debug_utf8_error w.as_bytes group_name
          internal_ou)
    created ← call (not_created (codes "group")) (w.create_group wanted)
    return success

  abbrev expected : Str
  expected =
      codes "\"uid=id,ou=people,"
      ++ (ldap_info.base_dn_str
          ++ (codes "\" or \"cn=id,ou=groups," ++ (ldap_info.base_dn_str ++ codes "\"")))

  abbrev pub create_named : UserOrGroupName → LdapAddRequest → Str → Run S LdapError (List LdapOp)
  create_named (user user_id) request internal_ou =
      create_user user_id request.attributes internal_ou
  create_named (group group_name) request internal_ou = create_group group_name internal_ou
  create_named unclear request internal_ou = fail (into_ldap_error unclear request.dn expected)

  unfoldable pub create_user_or_group : LdapAddRequest → Run S LdapError (List LdapOp)
  create_user_or_group request = do
    dn_parts ← lift (parse_distinguished_name request.dn)
    create_named (get_user_or_group_id_from_distinguished_name request.dn ldap_info.base_dn) request
        (get_internal_ou_from_dn_parts dn_parts)
