-- ===== src/Ldap/Wildcards/Tests.antt =====
-- A concrete schema and the attributes that searches ask of it.
use klldap.Base.{◌≡◌, refl, false, ◌&&◌, ◌||◌, true, List, [], ◌∷◌, map}
use klldap.Text.{Str, codes, str_eq, to_ascii_lowercase, lower, eq_ignore_ascii_case}
use klldap.Schema.{Schema, AttributeType, AttributeSchema}
use klldap.Domain.{attribute_name}
use klldap.Ldap.Fields.{
  get, register_aliases, register, resolve_attribute, get_canonical_name, core_attrs,
  get_preferred_ldap_name, preferred_of,
}
use klldap.Ldap.Wildcards.{
  AttributeKeys, str_lt, insert, insert_names, push_new, collect_standard, collect_operational,
  push_names, retain_unseen, standard_keys, operational_keys, has_star, has_plus, requested_names,
  attribute_keys, expand_attribute_wildcards,
}
use klldap.Ldap.Wildcards.Keys.{names}
use klldap.Ldap.Wildcards.Laws.{
  contains_key, is_standard_name, is_operational_name, expand_attribute_wildcards-contains_key,
}

abbrev nickname : AttributeSchema
nickname = record {
  name = codes "nickname";
  aliases = [];
  attribute_type = AttributeType.string;
  is_list = false;
  is_visible = true;
  is_editable = true;
  is_hardcoded = false;
  is_readonly = false;
}

abbrev schema : Schema Unit
schema = record {
  user_attributes = record { attributes = nickname ∷ [] };
  group_attributes = record { attributes = [] };
  system_attributes = record { attributes = [] };
  posix_settings = tt;
  extra_user_object_classes = [];
  extra_group_object_classes = [];
}

abbrev asked : List Str
asked = codes "*" ∷ codes "UUID" ∷ []

abbrev keys_of : AttributeKeys → List Str
keys_of m = map (λ e. e.0.text) m

star-run :
    keys_of (expand_attribute_wildcards core_attrs asked schema).attribute_keys
    ≡ codes "entryuuid" ∷ codes "nickname" ∷ codes "objectclass" ∷ []
unfolding expand_attribute_wildcards attribute_keys standard_keys operational_keys retain_unseen
    collect_standard collect_operational push_names push_new insert_names insert str_lt
    get_canonical_name resolve_attribute core_attrs register register_aliases get str_eq
    to_ascii_lowercase lower eq_ignore_ascii_case get_preferred_ldap_name preferred_of
    attribute_name
star-run = refl

expand_attribute_wildcards-contains_key_example :
    contains_key
      (codes "nickname")
      (expand_attribute_wildcards core_attrs asked schema).attribute_keys
    ≡ (names (codes "nickname") (requested_names core_attrs asked)
        || ((has_star asked || has_plus asked)
            && is_standard_name core_attrs schema (codes "nickname"))
        || (has_plus asked && is_operational_name core_attrs schema (codes "nickname")))
unfolding str_eq
expand_attribute_wildcards-contains_key_example =
    expand_attribute_wildcards-contains_key core_attrs schema asked (codes "nickname") refl
