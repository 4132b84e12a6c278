-- ===== src/Ldap/Attributes/Panics.antt =====
-- Searches show no secret column, and resolve every attribute but `*` without a panic.
use klldap.Base.{
  ◌≡◌, ◌≢◌, refl, Bool, true, false, Option, none, some, List, [], ◌∷◌, all, arith, Bool-cases, inl,
  inr,
}
use klldap.Text.{Str, codes, str_eq, to_ascii_lowercase, lower}
use klldap.Schema.{AttributeSchema, AttributeType, Schema}
use klldap.Domain.{AttributeName, attribute_name, User, GroupDetails, UserColumn}
use klldap.Ldap.Fields.{
  LogicalAttr, AttributeMap, get, register_aliases, register, register_schema, core_attrs,
  get_preferred_ldap_name, determine_logical_attr, new_schema_manager, resolve_attribute,
  map_user_field, user_field, user_field_or, user_attribute_or_none, UserFieldType, is_uuid_name,
}
use klldap.Ldap.Attributes.Values.{
  Conversions, Values, panics, get_user_attribute, user_value, unless_blank,
}

-- The attribute stands for no column that holds a secret or an internal copy.
abbrev pub shows : LogicalAttr → Bool
shows (LogicalAttr.primary UserColumn.lowercase_email) = false
shows (LogicalAttr.primary UserColumn.password_hash) = false
shows (LogicalAttr.primary UserColumn.totp_secret) = false
shows (LogicalAttr.primary UserColumn.mfa_type) = false
shows other = true

abbrev shows_all : AttributeMap → Bool
shows_all m = all (λ e. shows e.1) m

determine_logical_attr-shows :
    (attr : AttributeSchema) (preferred : Str)
    → shows (determine_logical_attr attr preferred) ≡ true
unfolding determine_logical_attr
determine_logical_attr-shows attr preferred = ground arith

register_aliases-shows_all :
    (logical : LogicalAttr) (canonical : Str) (aliases : List Str) (m : AttributeMap)
    → shows logical ≡ true
    → shows_all m ≡ true
    → shows_all (register_aliases logical canonical aliases m) ≡ true
unfolding register_aliases
register_aliases-shows_all logical canonical [] m h k = k
register_aliases-shows_all logical canonical (alias ∷ aliases) m h k =
    register_aliases-shows_all logical canonical aliases _ h
      (elim (Bool-cases (str_eq (to_ascii_lowercase alias) (to_ascii_lowercase canonical))) [
        | inl old ↦ rw old k
        | inr new ↦ rw (new, h) k
      ])

register_schema-shows_all :
    (attrs : List AttributeSchema) (m : AttributeMap)
    → shows_all m ≡ true
    → shows_all (register_schema attrs m) ≡ true
unfolding register_schema register
register_schema-shows_all [] m k = k
register_schema-shows_all (attr ∷ attrs) m k =
    let preferred = get_preferred_ldap_name attr in
    let safe = determine_logical_attr-shows attr preferred in
    register_schema-shows_all attrs _ (
      register_aliases-shows_all (determine_logical_attr attr preferred) preferred attr.aliases _
        safe (rw safe k))

core_attrs-shows_all : shows_all core_attrs ≡ true
unfolding core_attrs register register_aliases str_eq to_ascii_lowercase lower
core_attrs-shows_all = refl

abbrev shows_found : Option (LogicalAttr × Str) → Bool
shows_found none = true
shows_found (some (logical, canonical)) = shows logical

get-shows : (m : AttributeMap) (key : Str) → shows_all m ≡ true → shows_found (get m key) ≡ true
unfolding get
get-shows [] key h = refl
get-shows ((k, logical, canonical) ∷ m) key h = elim (Bool-cases (str_eq k key)) [
  | inl hit ↦ rw hit (ground (arith, h))
  | inr other ↦ rw other (get-shows m key (ground (arith, h)))
]

-- Every name that the schema manager resolves stands for something that may be shown.
pub resolve_attribute-shows :
    {P : Type 0} (schema : Schema P) (name : Str)
    → shows_found (resolve_attribute (new_schema_manager schema) name) ≡ true
unfolding resolve_attribute new_schema_manager
resolve_attribute-shows schema name = get-shows _ (to_ascii_lowercase name) (
    register_schema-shows_all schema.group_attributes.attributes _
      (register_schema-shows_all schema.user_attributes.attributes core_attrs core_attrs-shows_all))

module _ {D P : Type 0} (c : Conversions D) (schema : Schema P) (base_dn_str : Str) where
  module _ (user : User D) (groups : Option (List (GroupDetails D)))
      (ignored : List AttributeName) where
    abbrev value_at : AttributeMap → AttributeName → UserFieldType → Values
    value_at manager attribute field =
        unless_blank (user_value c manager schema base_dn_str user groups ignored attribute field)

    user_no_match-ne-panics :
        (manager : AttributeMap) (attribute : AttributeName)
        → str_eq attribute.text (codes "*") ≡ false
        → value_at manager attribute UserFieldType.no_match ≢ panics
    user_no_match-ne-panics manager attribute plain = ground (arith, plain)

    attribute-ne-panics :
        (manager : AttributeMap) (attribute name : AttributeName) (t : AttributeType)
        (is_list : Bool)
        → value_at manager attribute (UserFieldType.attribute name t is_list) ≢ panics
    attribute-ne-panics manager attribute name t is_list = ground arith

    primary-ne-panics :
        (manager : AttributeMap) (attribute : AttributeName) (col : UserColumn)
        → shows (LogicalAttr.primary col) ≡ true
        → value_at manager attribute (UserFieldType.primary_field col) ≢ panics
    primary-ne-panics manager attribute col h = ground (arith, h)

    field-ne-panics :
        (manager : AttributeMap) (attribute : AttributeName) (logical : LogicalAttr)
        → str_eq attribute.text (codes "*") ≡ false
        → shows logical ≡ true
        → value_at manager attribute (user_field logical attribute.text) ≢ panics
    field-ne-panics manager attribute LogicalAttr.object_class plain h = ground arith
    field-ne-panics manager attribute LogicalAttr.member_of plain h = ground arith
    field-ne-panics manager attribute LogicalAttr.dn plain h = ground arith
    field-ne-panics manager attribute LogicalAttr.entry_dn plain h = ground arith
    field-ne-panics manager attribute LogicalAttr.operational plain h =
        elim (Bool-cases (is_uuid_name attribute.text)) [
          | inl uuid ↦ rw uuid (ground arith)
          | inr other ↦ rw other (user_no_match-ne-panics manager attribute plain)
        ]
    field-ne-panics manager attribute (LogicalAttr.primary col) plain h =
        primary-ne-panics manager attribute col h
    field-ne-panics manager attribute (LogicalAttr.custom name t is_list) plain h =
        attribute-ne-panics manager attribute (attribute_name name) t is_list

    unknown-ne-panics :
        (manager : AttributeMap) (attribute : AttributeName) (found : Option (AttributeType × Bool))
        → str_eq attribute.text (codes "*") ≡ false
        → value_at manager attribute (user_attribute_or_none attribute found) ≢ panics
    unknown-ne-panics manager attribute none plain = user_no_match-ne-panics manager attribute plain
    unknown-ne-panics manager attribute (some (t, is_list)) plain =
        attribute-ne-panics manager attribute attribute t is_list

    resolved-ne-panics :
        (manager : AttributeMap) (attribute : AttributeName) (r : Option (LogicalAttr × Str))
        (found : Option (AttributeType × Bool))
        → str_eq attribute.text (codes "*") ≡ false
        → shows_found r ≡ true
        → value_at manager attribute
            (user_field_or r attribute.text (user_attribute_or_none attribute found))
          ≢ panics
    resolved-ne-panics manager attribute none found plain h =
        unknown-ne-panics manager attribute found plain
    resolved-ne-panics manager attribute (some (logical, canonical)) found plain h =
        field-ne-panics manager attribute logical plain h

  -- With the manager that is built from a schema, asking a user for any attribute but `*` never
  -- reaches a panic: no attribute name leads to a password hash, a TOTP secret or a second factor.
  pub get_user_attribute-ne-panics :
      (user : User D) (field : AttributeName) (groups : Option (List (GroupDetails D)))
      (ignored : List AttributeName)
      → str_eq (to_ascii_lowercase field.text) (codes "*") ≡ false
      → get_user_attribute c
          (new_schema_manager schema)
          schema
          base_dn_str
          user
          field
          groups
          ignored
        ≢ panics
  unfolding get_user_attribute map_user_field attribute_name
  get_user_attribute-ne-panics user field groups ignored plain =
      resolved-ne-panics user groups ignored (new_schema_manager schema) (attribute_name field.text)
        _ _ plain (resolve_attribute-shows schema (attribute_name field.text).text)
