-- ===== src/Ldap/Modify/Tests.antt =====
-- Modify requests in the small world.
use klldap.Base.{◌≡◌, refl, false, List, [], ◌∷◌, ok}
use klldap.Text.{
  codes, str_eq, lower, to_ascii_lowercase, eq_ignore_ascii_case, contains, is_empty, split, join,
  trim, trim_end, trim_start,
}
use klldap.Auth.{
  UserId, Permission, ValidationResults, user_id, permission_eq, user_id_eq, can_read, can_write,
  can_change_password,
}
use klldap.Domain.{UpdateUserRequest}
use klldap.Domain.Deserialize.{deserialize_attribute_value}
use klldap.Access.{get_readable_handler, get_writeable_handler}
use klldap.Ldap.Error.{LdapResultCode, LdapError}
use klldap.Ldap.Ou.{is_subtree}
use klldap.Ldap.Dn.{
  make_dn_pair, parse_distinguished_name, classify_rdn, classify_parts,
  get_user_or_group_id_from_distinguished_name, get_user_id_from_distinguished_name,
}
use klldap.Ldap.World.{done, failed, LdapOp}
use klldap.Ldap.World.Sample.{bob, regular_alice, world, info, parsers, to_lowercase, bob_dn}
use klldap.Ldap.Modify.Profile.{
  add, delete, replace, profile_field, is_protected, profile_update, add_keys, keys_among,
  push_missing, unwilling, delete_one,
}
use klldap.Ldap.Modify.{
  LdapModify, LdapModifyRequest, handle_modify_request, handle_modify_change, change_profile,
  apply_change, apply_changes, target,
}
use klldap.Ldap.Modify.Frame.{IsWithinProfile, profile_update-IsWithinProfile}
use klldap.Ldap.Modify.Laws.{
  Applied, handle_modify_request-done, handle_modify_request-unauthorized,
  handle_modify_request-partial,
}

abbrev own_bob : ValidationResults
own_bob = record { user = bob; permission = Permission.regular }

abbrev add_key : LdapModify
add_key = record {
  operation = add;
  modification = record { atype = codes "sshPublicKey"; vals = codes "key" ∷ [] };
}

abbrev change_ou : LdapModify
change_ou = record {
  operation = replace;
  modification = record { atype = codes "ou"; vals = codes "staff" ∷ [] };
}

abbrev asking : List LdapModify → LdapModifyRequest
asking changes = record { dn = bob_dn; changes = changes }

abbrev ou_refusal : LdapError
ou_refusal = unwilling (codes "Direct modification of 'ou' via LDAP Modify is not supported.")

names_bob : target world info parsers to_lowercase (asking []) ≡ ok bob
unfolding get_user_id_from_distinguished_name get_user_or_group_id_from_distinguished_name
    classify_parts classify_rdn parse_distinguished_name make_dn_pair is_subtree str_eq lower
    to_ascii_lowercase eq_ignore_ascii_case contains is_empty split join trim trim_end trim_start
    user_id
names_bob = refl

alice-cannot_write : can_write regular_alice bob ≡ false
unfolding can_write permission_eq user_id_eq str_eq
alice-cannot_write = refl

handle_modify_request-unauthorized_example :
    (e : LdapError) × (handle_modify_request world info parsers to_lowercase regular_alice
        (asking (add_key ∷ []))
        []
      ≡ (failed e, []))
    × (e.code ≡ LdapResultCode.insufficient_access_rights)
handle_modify_request-unauthorized_example =
    handle_modify_request-unauthorized world info parsers to_lowercase regular_alice
      (asking (add_key ∷ [])) bob add_key [] [] names_bob refl alice-cannot_write

ou-refused :
    apply_change world info parsers to_lowercase own_bob bob change_ou (codes "bob" ∷ [])
    ≡ (failed ou_refusal, codes "bob" ∷ [])
unfolding apply_change handle_modify_change change_profile get_readable_handler
    get_writeable_handler can_read can_write can_change_password permission_eq user_id_eq str_eq
    lower to_ascii_lowercase profile_field profile_update is_protected
ou-refused = refl

key-applied :
    apply_changes world info parsers to_lowercase own_bob bob (add_key ∷ []) []
    ≡ (done tt, codes "bob" ∷ [])
unfolding apply_changes apply_change handle_modify_change change_profile get_readable_handler
    get_writeable_handler can_read can_write can_change_password permission_eq user_id_eq str_eq
    lower to_ascii_lowercase profile_field profile_update add_keys is_protected keys_among
    push_missing deserialize_attribute_value
key-applied = refl

handle_modify_request-partial_example :
    handle_modify_request world info parsers to_lowercase own_bob
      (asking (add_key ∷ (change_ou ∷ [])))
      []
    ≡ (failed ou_refusal, codes "bob" ∷ [])
handle_modify_request-partial_example =
    handle_modify_request-partial world info parsers to_lowercase own_bob
      (asking (add_key ∷ (change_ou ∷ []))) bob (add_key ∷ []) [] change_ou ou_refusal []
      (codes "bob" ∷ []) (codes "bob" ∷ []) names_bob refl key-applied ou-refused

key_added :
    handle_modify_request world info parsers to_lowercase own_bob (asking (add_key ∷ [])) []
    ≡ (done (LdapOp.modify_response LdapResultCode.success [] ∷ []), codes "bob" ∷ [])
unfolding handle_modify_request
key_added = rw (names_bob, key-applied) refl

handle_modify_request-done_example :
    (uid : UserId) × (target world info parsers to_lowercase (asking (add_key ∷ [])) ≡ ok uid)
    × Applied world info parsers to_lowercase own_bob uid (add_key ∷ []) [] (codes "bob" ∷ [])
handle_modify_request-done_example =
    handle_modify_request-done world info parsers to_lowercase own_bob (asking (add_key ∷ [])) []
      (LdapOp.modify_response LdapResultCode.success [] ∷ []) (codes "bob" ∷ []) key_added

abbrev avatar_gone : UpdateUserRequest Unit
avatar_gone = delete_one bob (codes "avatar")

avatar-deleted :
    profile_update parsers bob world.display_error world.get_user_details delete
      (codes "jpegPhoto")
      (codes "jpegphoto")
      []
      []
    ≡ (done avatar_gone, [])
unfolding profile_update profile_field str_eq
avatar-deleted = refl

profile_update-IsWithinProfile_example : IsWithinProfile bob avatar_gone
profile_update-IsWithinProfile_example =
    profile_update-IsWithinProfile parsers bob world.display_error world.get_user_details delete
      (codes "jpegPhoto") (codes "jpegphoto") [] [] avatar_gone [] avatar-deleted
