-- ===== src/Ldap/Session/Tests.antt =====
-- A session in the small world.
use klldap.Base.{◌≡◌, ◌≢◌, ◌⊎◌, refl, true, Option, none, some, List, [], ◌∷◌}
use klldap.Text.{
  Str, codes, str_eq, lower, to_ascii_lowercase, eq_ignore_ascii_case, contains, is_empty, split,
  join, trim, trim_end, trim_start,
}
use klldap.Auth.{Permission, ValidationResults, user_id}
use klldap.Domain.{compare_chars, compare_str_case_insensitive, group_name_eq}
use klldap.Access.{get_permissions_for_user, get_permissions_from_groups}
use klldap.Ldap.Error.{LdapResultCode}
use klldap.Ldap.Ou.{is_subtree, get_internal_ou_from_dn_parts, ldap_rdn_chain_to_internal_ou}
use klldap.Ldap.Dn.{
  make_dn_pair, parse_distinguished_name, classify_rdn, classify_parts,
  get_user_or_group_id_from_distinguished_name, get_user_id_from_distinguished_name,
}
use klldap.Ldap.World.{done, LdapOp}
use klldap.Ldap.World.Sample.{Changed, bob, regular_alice, world, info, to_lowercase, bob_dn}
use klldap.Ldap.Password.{simple, LdapBindRequest, do_bind}
use klldap.Ldap.Session.{
  LdapHandler, handler, bind_request, unbind_request, del_request, do_bind_request,
  handle_ldap_message,
}
use klldap.Ldap.Attributes.{get_ou_from_attributes}
use klldap.Ldap.Session.Laws.{IsBound}
use klldap.Ldap.Session.Bind.{do_bind_request-answer}
use klldap.Ldap.Session.Reachable.{
  start, step, BoundBefore, is_refused, Reachable-user_info, handle_ldap_message-unbound,
}

abbrev request : LdapBindRequest
request = record { dn = bob_dn; cred = simple (codes "secret") }

abbrev regular_bob : ValidationResults
regular_bob = record { user = bob; permission = Permission.regular }

bind-run : handle_ldap_message world info to_lowercase (handler none) (bind_request request) [] ≡ (
  done (handler (some regular_bob), some (LdapOp.bind_response LdapResultCode.success [] ∷ [])),
  [],
)
unfolding handle_ldap_message do_bind_request do_bind get_user_id_from_distinguished_name
    get_user_or_group_id_from_distinguished_name classify_parts classify_rdn
    parse_distinguished_name make_dn_pair is_subtree get_internal_ou_from_dn_parts
    ldap_rdn_chain_to_internal_ou str_eq lower to_ascii_lowercase eq_ignore_ascii_case contains
    is_empty split join trim trim_end trim_start user_id get_ou_from_attributes
    get_permissions_for_user get_permissions_from_groups group_name_eq compare_str_case_insensitive
    compare_chars
bind-run = refl

wrong_unit-run :
    handle_ldap_message world info to_lowercase
      (handler none)
      (bind_request
        (record { dn = codes "uid=bob,ou=home,dc=com"; cred = simple (codes "secret") }))
      []
    ≡ (
      done (handler none, some (LdapOp.bind_response LdapResultCode.invalid_credentials [] ∷ [])),
      [],
    )
unfolding handle_ldap_message do_bind_request do_bind get_user_id_from_distinguished_name
    get_user_or_group_id_from_distinguished_name classify_parts classify_rdn
    parse_distinguished_name make_dn_pair is_subtree get_internal_ou_from_dn_parts
    ldap_rdn_chain_to_internal_ou str_eq lower to_ascii_lowercase eq_ignore_ascii_case contains
    is_empty split join trim trim_end trim_start user_id get_ou_from_attributes
    get_permissions_for_user get_permissions_from_groups group_name_eq compare_str_case_insensitive
    compare_chars
wrong_unit-run = refl

Reachable-user_info_example :
    BoundBefore world info to_lowercase regular_bob (handler (some regular_bob)) []
Reachable-user_info_example =
    Reachable-user_info world info to_lowercase (handler (some regular_bob)) [] regular_bob
      (step (bind_request request) bind-run (start [])) refl

not_bind : (r : LdapBindRequest) → del_request bob_dn ≢ bind_request r
not_bind r e = cc e

handle_ldap_message-unbound_example :
    (answer : Option (List LdapOp)) × (handle_ldap_message world info to_lowercase
        (handler none)
        (del_request bob_dn)
        []
      ≡ (done (handler none, answer), []))
    × (((del_request bob_dn ≡ unbind_request) × (answer ≡ none)) ⊎ (is_refused answer ≡ true))
handle_ldap_message-unbound_example =
    handle_ldap_message-unbound world info to_lowercase (del_request bob_dn) [] not_bind

do_bind_request-answer_example :
    (h' : LdapHandler) × (code : LdapResultCode) × (message : Str) × (s' : Changed)
    × (do_bind_request world info to_lowercase (handler (some regular_alice)) request []
        ≡ (done (h', LdapOp.bind_response code message ∷ []), s'))
    × (code ≡ LdapResultCode.success → IsBound world info to_lowercase request [] h')
    × (code ≢ LdapResultCode.success → h' ≡ handler (some regular_alice))
do_bind_request-answer_example =
    do_bind_request-answer world info to_lowercase (handler (some regular_alice)) request []
