-- ===== src/Ldap/Filters/Tests.antt =====
-- Conversions of concrete filters.
use klldap.Base.{◌≡◌, Bool, some, [], ◌∷◌, ok, err, map_ok}
use klldap.Text.{codes}
use klldap.Domain.{pos}
use klldap.Domain.Deserialize.{Parsers}
use klldap.Schema.{Schema}
use klldap.Handlers.{UserRequestFilter, GroupRequestFilter}
use klldap.Handlers.Meaning.{user_meaning, group_meaning}
use klldap.Ldap.Filter.{LdapFilter, LdapFilters}
use klldap.Ldap.Filters.{Context}
use klldap.Ldap.Filters.Users.{convert_user_filter}
use klldap.Ldap.Filters.Users.Meaning.{ldap_user_meaning, convert_user_filter-meaning}
use klldap.Ldap.Filters.Groups.{convert_group_filter}
use klldap.Ldap.Filters.Groups.Meaning.{ldap_group_meaning, convert_group_filter-meaning}

abbrev parsers : Parsers Unit
parsers = record {
  parse_i64 = λ s. err s;
  parse_from_rfc3339 = λ s. ok tt;
  base64_decode = λ s. ok s;
  process_avatar_input = λ s. ok s;
  parse_uuid = λ s. ok s;
}

abbrev schema : Schema Unit
schema = record {
  user_attributes = record { attributes = [] };
  group_attributes = record { attributes = [] };
  system_attributes = record { attributes = [] };
  posix_settings = tt;
  extra_user_object_classes = [];
  extra_group_object_classes = [];
}

abbrev context : Context Unit Unit
context = record {
  ldap_info = record {
    base_dn = (codes "dc", codes "com") ∷ [];
    base_dn_str = codes "dc=com";
    ignored_user_attributes = [];
    ignored_group_attributes = [];
  };
  schema = schema;
  manager = [];
  parsers = parsers;
  printers = record { debug_filter = λ f. codes "filter"; debug_name = λ n. n.text };
}

-- `(&(objectClass=person)(!(|(objectClass=device)(loginDisabled=TRUE))))`.
abbrev filter : LdapFilter
filter = LdapFilter.and (
    LdapFilters.cons (LdapFilter.equality (codes "objectClass") (codes "person")) (
      LdapFilters.cons
        (LdapFilter.not (
          LdapFilter.or (
            LdapFilters.cons (LdapFilter.equality (codes "objectClass") (codes "device")) (
              LdapFilters.cons (LdapFilter.equality (codes "loginDisabled") (codes "TRUE"))
                LdapFilters.nil))))
        LdapFilters.nil))

abbrev never_user : UserRequestFilter Unit → Bool
never_user f = Bool.false

abbrev never_group : GroupRequestFilter Unit → Bool
never_group f = Bool.false

convert_user_filter-meaning_example :
    map_ok (user_meaning never_user) (convert_user_filter context filter)
    ≡ ldap_user_meaning never_user context filter
convert_user_filter-meaning_example = convert_user_filter-meaning context never_user filter

convert_group_filter-meaning_example :
    map_ok (group_meaning never_group) (convert_group_filter context (λ s. some (pos 7)) filter)
    ≡ ldap_group_meaning never_group context (λ s. some (pos 7)) filter
convert_group_filter-meaning_example =
    convert_group_filter-meaning context (λ s. some (pos 7)) never_group filter
