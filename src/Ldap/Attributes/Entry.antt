-- ===== src/Ldap/Attributes/Entry.antt =====
-- crates/ldap/src/attributes.rs: the entries that a search returns for a user and for a group. A panic
-- on any attribute is `none` for the entry.
use klldap.Base.{
  Bool, not, ◌||◌, Option, none, some, List, [], ◌∷◌, ◌++◌, any, retain, if◌then◌else◌,
}
use klldap.Text.{Str, codes, str_eq, to_ascii_lowercase}
use klldap.Auth.{UserId}
use klldap.Schema.{AttributeSchema, Schema}
use klldap.Domain.{Attribute, AttributeName, User, Group, GroupDetails}
use klldap.Ldap.Dn.{build_user_dn, build_group_dn}
use klldap.Ldap.Scope.{LdapPartialAttribute, LdapSearchResultEntry}
use klldap.Ldap.Fields.{AttributeMap, is_operational}
use klldap.Ldap.Wildcards.{AttributeKeys, ExpandedAttributes, insert}
use klldap.Ldap.Attributes.{get_user_ou, get_group_ou}
use klldap.Ldap.Attributes.Values.{
  Conversions, Values, panics, absent, present, get_user_attribute, get_group_attribute,
}

-- The set `standardized` holds the name.
abbrev is_standardized : List AttributeSchema → Str → Bool
is_standardized attrs name =
    any (λ a. str_eq a.name name || any (λ alias. str_eq alias name) a.aliases) attrs

-- The entity's attributes outside the schema join the keys.
unfoldable pub add_custom :
    {D : Type 0} → List AttributeSchema → List (Attribute D) → AttributeKeys → AttributeKeys
add_custom attrs [] keys = keys
add_custom attrs (a ∷ attributes) keys =
    add_custom attrs attributes
      (if is_standardized attrs a.name.text then keys else insert a.name a.name.text keys)

abbrev push_value :
    Str → Values → Option (List LdapPartialAttribute) → Option (List LdapPartialAttribute)
push_value name v none = none
push_value name panics (some rest) = none
push_value name absent (some rest) = some rest
push_value name (present vals) (some rest) = some (record { atype = name; vals = vals } ∷ rest)

-- `filter_map` over the keys.
unfoldable pub project :
    (AttributeName → Values) → AttributeKeys → Option (List LdapPartialAttribute)
project value [] = some []
project value ((attribute, name) ∷ keys) = push_value name (value attribute) (project value keys)

-- `retain` with the closure that inserts the type into the set `seen`.
unfoldable pub retain_new_types : List Str → List LdapPartialAttribute → List LdapPartialAttribute
retain_new_types seen [] = []
retain_new_types seen (a ∷ attrs) =
    let old = any (λ t. str_eq t a.atype) seen in
    let rest = retain_new_types (if old then seen else a.atype ∷ seen) attrs in
    if old then rest else a ∷ rest

module _ {D : Type 0} (c : Conversions D) where
  abbrev default_attributes : Str → Str → List LdapPartialAttribute
  default_attributes structural_class base_dn_str =
      record { atype = codes "hasSubordinates"; vals = codes "FALSE" ∷ [] }
      ∷ record { atype = codes "structuralObjectClass"; vals = c.as_bytes structural_class ∷ [] }
      ∷ record {
        atype = codes "subschemaSubentry";
        vals = c.as_bytes (codes "cn=Subschema," ++ base_dn_str) ∷ [];
      }
      ∷ record {
        atype = codes "creatorsName";
        vals = c.as_bytes (codes "cn=admin,ou=people," ++ base_dn_str) ∷ [];
      }
      ∷ record {
        atype = codes "modifiersName";
        vals = c.as_bytes (codes "cn=admin,ou=people," ++ base_dn_str) ∷ [];
      }
      ∷ []

  unfoldable pub inject_operational_attributes :
      List LdapPartialAttribute → Str → Str → List LdapPartialAttribute
  inject_operational_attributes attrs structural_class base_dn_str =
      attrs
      ++ retain
          (λ d.
            not (any (λ a. str_eq (to_ascii_lowercase a.atype) (to_ascii_lowercase d.atype)) attrs))
          (default_attributes structural_class base_dn_str)

  module _ {P : Type 0} (manager : AttributeMap) (schema : Schema P) (base_dn_str : Str) where
    abbrev shown_keys : Bool → AttributeKeys → AttributeKeys
    shown_keys operational keys =
        retain (λ e. not (is_operational manager e.0.text) || operational) keys

    abbrev pub entry_of :
        Str → Str → Bool → Option (List LdapPartialAttribute) → Option LdapSearchResultEntry
    entry_of dn structural_class operational none = none
    entry_of dn structural_class operational (some attrs) = some record {
      dn = dn;
      attributes = retain_new_types [] (
          if operational
          then inject_operational_attributes attrs structural_class base_dn_str
          else attrs);
    }

    unfoldable pub make_ldap_search_user_result_entry :
        User D
        → ExpandedAttributes
        → Option (List (GroupDetails D))
        → List AttributeName
        → Option LdapSearchResultEntry
    make_ldap_search_user_result_entry user expanded groups ignored =
        let keys =
          (if expanded.include_custom_attributes
            then add_custom schema.user_attributes.attributes user.attributes
                expanded.attribute_keys
            else expanded.attribute_keys) in
        let operational = expanded.include_operational_attributes in
        entry_of (build_user_dn user.user_id (get_user_ou user) base_dn_str) (codes "inetOrgPerson")
          operational
          (project
            (λ attribute.
              get_user_attribute c manager schema base_dn_str user attribute groups ignored)
            (shown_keys operational keys))

    unfoldable pub make_ldap_search_group_result_entry :
        Group D
        → ExpandedAttributes
        → Option UserId
        → List AttributeName
        → Option LdapSearchResultEntry
    make_ldap_search_group_result_entry group expanded user_filter ignored =
        let keys =
          (if expanded.include_custom_attributes
            then add_custom schema.group_attributes.attributes group.attributes
                expanded.attribute_keys
            else expanded.attribute_keys) in
        let operational = expanded.include_operational_attributes in
        entry_of (build_group_dn group.display_name (get_group_ou group) base_dn_str)
          (codes "groupOfUniqueNames") operational
          (project
            (λ attribute.
              get_group_attribute c manager schema base_dn_str group attribute user_filter ignored)
            (shown_keys operational keys))
