-- ===== src/Ldap/Password/Tests.antt =====
-- Binds and changes of passwords in the small world.
use klldap.Base.{◌≡◌, ◌↔◌, refl, true, false, none, some, List, [], ◌∷◌, ok}
use klldap.Text.{
  Str, codes, str_eq, lower, to_ascii_lowercase, eq_ignore_ascii_case, contains, is_empty, split,
  join, trim, trim_end, trim_start,
}
use klldap.Auth.{
  UserId, Permission, ValidationResults, user_id, permission_eq, user_id_eq, can_read,
  can_change_password,
}
use klldap.Domain.{GroupDetails}
use klldap.Access.{get_readable_handler}
use klldap.Ldap.Error.{LdapResultCode}
use klldap.Ldap.Ou.{is_subtree}
use klldap.Ldap.Dn.{
  make_dn_pair, parse_distinguished_name, classify_rdn, classify_parts,
  get_user_or_group_id_from_distinguished_name, get_user_id_from_distinguished_name,
}
use klldap.Ldap.World.{done, LdapOp}
use klldap.Ldap.World.Sample.{Changed, bob, world, info, to_lowercase, bob_dn}
use klldap.Ldap.Password.{
  simple, LdapBindRequest, LdapPasswordModifyRequest, named, has_admin_group, do_bind,
  change_password, sync_kerberos, modify_password, do_password_modification,
}
use klldap.Ldap.Password.Laws.{do_bind_iff, do_password_modification-done}

abbrev request : LdapPasswordModifyRequest
request = record {
  user_identity = some bob_dn;
  old_password = none;
  new_password = some (codes "new");
}

abbrev own_bob : ValidationResults
own_bob = record { user = bob; permission = Permission.regular }

abbrev bind_bob : LdapBindRequest
bind_bob = record { dn = bob_dn; cred = simple (codes "secret") }

do_bind_iff_example : (do_bind world info bind_bob [] ≡ (done bob, [])) ↔ (
    (is_empty bind_bob.dn ≡ false)
    × (named world info bind_bob.dn ≡ ok bob)
    × (password : Str) × (bind_bob.cred ≡ simple password)
    × (world.bind bob password [] ≡ (ok tt, [])))
do_bind_iff_example = do_bind_iff world info bind_bob [] bob []

changed-run :
    do_password_modification world info to_lowercase own_bob request []
    ≡ (done (LdapOp.extended_response LdapResultCode.success [] ∷ []), codes "bob" ∷ [])
unfolding do_password_modification modify_password change_password sync_kerberos
    get_readable_handler can_read can_change_password permission_eq user_id_eq
    get_user_id_from_distinguished_name get_user_or_group_id_from_distinguished_name classify_parts
    classify_rdn parse_distinguished_name make_dn_pair is_subtree str_eq lower to_ascii_lowercase
    eq_ignore_ascii_case contains is_empty split join trim trim_end trim_start user_id
changed-run = refl

do_password_modification-done_example :
    (user : Str) × (password : Str) × (uid : UserId) × (groups : List (GroupDetails Unit))
    × (s₁ : Changed) × (s₂ : Changed) × (request.user_identity ≡ some user)
    × (request.new_password ≡ some password)
    × (named world info user ≡ ok uid)
    × (world.get_user_groups uid [] ≡ (ok groups, s₁))
    × (can_change_password own_bob uid (has_admin_group world info to_lowercase groups) ≡ true)
    × (change_password world info uid (world.as_bytes password) s₁ ≡ (done tt, s₂))
do_password_modification-done_example =
    do_password_modification-done world info to_lowercase own_bob request []
      (LdapOp.extended_response LdapResultCode.success [] ∷ []) (codes "bob" ∷ []) changed-run
