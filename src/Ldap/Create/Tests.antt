-- ===== src/Ldap/Create/Tests.antt =====
-- An addition in the small world.
use klldap.Base.{◌≡◌, refl, [], ◌∷◌, ◌⊎◌}
use klldap.Text.{
  Str, codes, str_eq, lower, to_ascii_lowercase, eq_ignore_ascii_case, contains, is_empty, split,
  join, trim, trim_end, trim_start,
}
use klldap.Auth.{UserId, user_id}
use klldap.Domain.{GroupName}
use klldap.Domain.Deserialize.{deserialize_attribute_value}
use klldap.Ldap.Ou.{is_subtree}
use klldap.Ldap.Dn.{
  user, group, make_dn_pair, parse_distinguished_name, classify_rdn, classify_parts,
  get_user_or_group_id_from_distinguished_name,
}
use klldap.Ldap.World.{done}
use klldap.Ldap.World.Sample.{world, info, parsers, bob_dn}
use klldap.Ldap.Create.Request.{
  parse_attribute, parse_attributes, attribute_map, new_user_attributes, create_user_request,
}
use klldap.Ldap.Create.{LdapAddRequest, success, create_user, create_user_or_group}
use klldap.Ldap.Create.Laws.{UnitOf, CreatedUser, CreatedGroup, create_user_or_group-done}

abbrev add_bob : LdapAddRequest
add_bob = record {
  dn = bob_dn;
  attributes =
      record { atype = codes "objectClass"; vals = codes "a" ∷ (codes "b" ∷ []) }
      ∷ (record { atype = codes "ou"; vals = codes "elsewhere" ∷ [] }
          ∷ (record { atype = codes "sn"; vals = codes "B" ∷ [] } ∷ []));
}

bob_added : create_user_or_group world info parsers add_bob [] ≡ (done success, codes "bob" ∷ [])
unfolding create_user_or_group create_user create_user_request new_user_attributes attribute_map
    parse_attribute parse_attributes deserialize_attribute_value
    get_user_or_group_id_from_distinguished_name classify_parts classify_rdn
    parse_distinguished_name make_dn_pair is_subtree str_eq lower to_ascii_lowercase
    eq_ignore_ascii_case contains is_empty split join trim trim_end trim_start user_id
bob_added = refl

create_user_or_group-done_example :
    (ou : Str) × UnitOf add_bob.dn ou
    × (((u : UserId) × (get_user_or_group_id_from_distinguished_name add_bob.dn info.base_dn
            ≡ user u)
          × CreatedUser world info parsers u ou [])
        ⊎ ((g : GroupName) × (get_user_or_group_id_from_distinguished_name add_bob.dn info.base_dn
              ≡ group g)
            × CreatedGroup world info parsers g ou []))
create_user_or_group-done_example =
    create_user_or_group-done world info parsers add_bob [] success (codes "bob" ∷ []) bob_added
