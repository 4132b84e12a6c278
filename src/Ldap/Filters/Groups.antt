-- ===== src/Ldap/Filters/Groups.antt =====
-- `convert_group_filter`.
pub mod Meaning
use klldap.Base.{
  Bool, true, false, ◌||◌, Option, none, some, List, [], ◌∷◌, ◌++◌, map, if◌then◌else◌, Result, ok,
  err, ◌>>=◌, map_ok,
}
use klldap.Text.{Str, codes, to_ascii_lowercase, eq_ignore_ascii_case}
use klldap.Schema.{AttributeType, resolve_canonical_name}
use klldap.Domain.{ℤ, AttributeName, attribute_name, AttributeValue, GroupName}
use klldap.Domain.Deserialize.{deserialize_attribute_value}
use klldap.Handlers
use klldap.Handlers.{GroupRequestFilter, GroupFilters, group_list, group_vec}
use klldap.Ldap.Error.{LdapError, LdapResult}
use klldap.Ldap.Dn.{
  get_group_id_from_distinguished_name_or_plain_name,
  get_user_id_from_distinguished_name_or_plain_name,
}
use klldap.Ldap.Filter.{LdapFilter, LdapFilters, LdapSubstringFilter, sub_string_filter}
use klldap.Ldap.Fields.{GroupFieldType, map_group_field}
use klldap.Ldap.Simplify.{simplify}
use klldap.Ldap.Filters.{Context, is_text, contains_text, unwilling, other_error, map_or}

abbrev pub is_true : {D : Type 0} → GroupRequestFilter D → Bool
is_true GroupRequestFilter.true = true
is_true other = false

abbrev pub is_false : {D : Type 0} → GroupRequestFilter D → Bool
is_false GroupRequestFilter.false = true
is_false other = false

abbrev pub and_parts : {D : Type 0} → GroupRequestFilter D → List (GroupRequestFilter D)
and_parts (GroupRequestFilter.and fs) = group_list fs
and_parts other = other ∷ []

abbrev pub or_parts : {D : Type 0} → GroupRequestFilter D → List (GroupRequestFilter D)
or_parts (GroupRequestFilter.or fs) = group_list fs
or_parts other = other ∷ []

unfoldable pub simplify_and :
    {D : Type 0} → List (LdapResult (GroupRequestFilter D)) → LdapResult (GroupRequestFilter D)
simplify_and rs =
    simplify is_true and_parts GroupRequestFilter.true (λ fs. GroupRequestFilter.and (group_vec fs))
      rs

unfoldable pub simplify_or :
    {D : Type 0} → List (LdapResult (GroupRequestFilter D)) → LdapResult (GroupRequestFilter D)
simplify_or rs =
    simplify is_false or_parts GroupRequestFilter.false (λ fs. GroupRequestFilter.or (group_vec fs))
      rs

abbrev pub negate : {D : Type 0} → GroupRequestFilter D → GroupRequestFilter D
negate GroupRequestFilter.true = GroupRequestFilter.false
negate GroupRequestFilter.false = GroupRequestFilter.true
negate f = GroupRequestFilter.not f

-- `resolve_group_canonical_name`, or the name itself.
abbrev name_or : Str → Option Str → Str
name_or name none = name
name_or name (some canonical) = canonical

-- `parse_i32` stands for `str::parse::<i32>` of the standard library.
module _ {D P : Type 0} (c : Context D P) (parse_i32 : Str → Option ℤ) where
  abbrev both_cases :
      AttributeName
      → Result Str (AttributeValue D)
      → Result Str (AttributeValue D)
      → GroupRequestFilter D
  both_cases field (ok v) (ok v_lc) = GroupRequestFilter.or (
      GroupFilters.cons (GroupRequestFilter.attribute_equality field v)
        (GroupFilters.cons (GroupRequestFilter.attribute_equality field v_lc) GroupFilters.nil))
  both_cases field (ok v) (err e) = GroupRequestFilter.false
  both_cases field (err e) other = GroupRequestFilter.false

  unfoldable pub get_group_attribute_equality_filter :
      AttributeName → AttributeType → Bool → Str → GroupRequestFilter D
  get_group_attribute_equality_filter field typ is_list value =
      both_cases field (deserialize_attribute_value c.parsers (value ∷ []) typ is_list)
        (deserialize_attribute_value c.parsers (to_ascii_lowercase value ∷ []) typ is_list)

  -- The arm for `objectClass`.
  unfoldable pub group_object_class : Str → GroupRequestFilter D
  group_object_class value =
      let v = to_ascii_lowercase value in
      if is_text v "groupofuniquenames"
        || is_text v "groupofnames"
        || is_text v "posixgroup"
        || contains_text (map to_ascii_lowercase c.schema.extra_group_object_classes) v
      then GroupRequestFilter.true
      else GroupRequestFilter.false

  abbrev group_id_filter : Option ℤ → GroupRequestFilter D
  group_id_filter (some id) = GroupRequestFilter.group_id (record { id = id })
  group_id_filter none = GroupRequestFilter.false

  abbrev uuid_filter : Str → Result Str Str → LdapResult (GroupRequestFilter D)
  uuid_filter message (ok parsed) = ok (GroupRequestFilter.uuid parsed)
  uuid_filter message (err e) = err (other_error (message ++ e))

  abbrev member_filter : Str → LdapResult (GroupRequestFilter D)
  member_filter value_lc = map_or GroupRequestFilter.member GroupRequestFilter.false (
      get_user_id_from_distinguished_name_or_plain_name value_lc c.ldap_info.base_dn
        c.ldap_info.base_dn_str)

  abbrev dn_filter : Str → LdapResult (GroupRequestFilter D)
  dn_filter value_lc = map_or GroupRequestFilter.display_name GroupRequestFilter.false (
      get_group_id_from_distinguished_name_or_plain_name value_lc c.ldap_info.base_dn
        c.ldap_info.base_dn_str)

  -- The match on the field's type in the arm for equality.
  unfoldable pub group_equality_field :
      GroupFieldType → Str → Str → LdapResult (GroupRequestFilter D)
  group_equality_field GroupFieldType.group_id value value_lc =
      ok (group_id_filter (parse_i32 value_lc))
  group_equality_field GroupFieldType.display_name value value_lc =
      ok (GroupRequestFilter.display_name (record { text = value_lc }))
  group_equality_field GroupFieldType.uuid value value_lc =
      uuid_filter (codes "Invalid UUID: ") (c.parsers.parse_uuid value_lc)
  group_equality_field GroupFieldType.member value value_lc = member_filter value_lc
  group_equality_field GroupFieldType.unique_member value value_lc = member_filter value_lc
  group_equality_field GroupFieldType.member_of value value_lc = member_filter value_lc
  group_equality_field GroupFieldType.object_class value value_lc =
      ok (GroupRequestFilter.and GroupFilters.nil)
  group_equality_field GroupFieldType.dn value value_lc = dn_filter value_lc
  group_equality_field GroupFieldType.entry_dn value value_lc = dn_filter value_lc
  group_equality_field GroupFieldType.entry_uuid value value_lc =
      uuid_filter (codes "Invalid UUID in filter: ") (c.parsers.parse_uuid value)
  group_equality_field GroupFieldType.no_match value value_lc = ok GroupRequestFilter.false
  group_equality_field (GroupFieldType.attribute field typ is_list) value value_lc =
      ok (get_group_attribute_equality_filter field typ is_list value)
  group_equality_field GroupFieldType.creation_date value value_lc =
      err (unwilling (codes "Creation date filter for groups not supported"))
  group_equality_field GroupFieldType.modified_date value value_lc =
      err (unwilling (codes "Modified date filter for groups not supported"))

  abbrev canonical_name : AttributeName → Str
  canonical_name field =
      name_or field.text (resolve_canonical_name c.schema.group_attributes field.text)

  -- The arms for `>=` and `<=`: `column` and `attribute` build the filter.
  unfoldable pub group_order :
      (Str → Str → GroupRequestFilter D)
      → (AttributeName → Str → GroupRequestFilter D)
      → Str
      → AttributeName
      → GroupFieldType
      → Str
      → LdapResult (GroupRequestFilter D)
  group_order column attribute message field GroupFieldType.creation_date value =
      ok (column (canonical_name field) value)
  group_order column attribute message field GroupFieldType.modified_date value =
      ok (column (canonical_name field) value)
  group_order column attribute message field
        (GroupFieldType.attribute name AttributeType.date_time is_list) value =
      ok (attribute name value)
  group_order column attribute message field other value = err (unwilling message)

  -- The arm for presence.
  unfoldable pub group_present : GroupFieldType → GroupRequestFilter D
  group_present (GroupFieldType.attribute name typ is_list) =
      GroupRequestFilter.custom_attribute_present name
  group_present GroupFieldType.no_match = GroupRequestFilter.false
  group_present other = GroupRequestFilter.true

  -- The arm for substrings.
  unfoldable pub group_substring :
      GroupFieldType → Handlers.SubStringFilter → Str → LdapResult (GroupRequestFilter D)
  group_substring GroupFieldType.display_name s message =
      ok (GroupRequestFilter.display_name_sub_string s)
  group_substring (GroupFieldType.attribute name AttributeType.string is_list) s message =
      ok (GroupRequestFilter.attribute_sub_string name s)
  group_substring GroupFieldType.no_match s message = ok GroupRequestFilter.false
  group_substring other s message = err (unwilling message)

  abbrev no_order : Str → AttributeName → Str
  no_order operator field =
      operator
      ++ (codes " is only supported on timestamp attributes for groups (got: "
          ++ (field.text ++ codes ")"))

  abbrev field_type : Str → GroupFieldType
  field_type name = map_group_field c.manager (attribute_name name) c.schema

  -- A filter with no connective.
  unfoldable pub convert_group_leaf : LdapFilter → LdapResult (GroupRequestFilter D)
  convert_group_leaf (LdapFilter.equality name value) =
      if eq_ignore_ascii_case name (codes "objectclass")
      then ok (group_object_class value)
      else group_equality_field (field_type name) value (to_ascii_lowercase value)
  convert_group_leaf (LdapFilter.greater_or_equal name value) =
      group_order GroupRequestFilter.greater_or_equal GroupRequestFilter.attribute_greater_or_equal
        (no_order (codes "GreaterOrEqual") (attribute_name name)) (attribute_name name)
        (field_type name) value
  convert_group_leaf (LdapFilter.less_or_equal name value) =
      group_order GroupRequestFilter.less_or_equal GroupRequestFilter.attribute_less_or_equal
        (no_order (codes "LessOrEqual") (attribute_name name)) (attribute_name name)
        (field_type name) value
  convert_group_leaf (LdapFilter.present name) = ok (group_present (field_type name))
  convert_group_leaf (LdapFilter.substring name s) =
      group_substring (field_type name) (sub_string_filter s) (
        codes "Unsupported group attribute for substring filter: \""
        ++ ((attribute_name name).text ++ codes "\""))
  convert_group_leaf f =
      err (unwilling (codes "Unsupported group filter: " ++ c.printers.debug_filter f))

  unfoldable mutual
    unfolding simplify_and simplify_or

    pub convert_group_filter : LdapFilter → LdapResult (GroupRequestFilter D)
    convert_group_filter (LdapFilter.and fs) = simplify_and (convert_group_filters fs)
    convert_group_filter (LdapFilter.or fs) = simplify_or (convert_group_filters fs)
    convert_group_filter (LdapFilter.not f) = map_ok negate (convert_group_filter f)
    convert_group_filter f = convert_group_leaf f

    -- `filters.iter().map(rec)`.
    pub convert_group_filters : LdapFilters → List (LdapResult (GroupRequestFilter D))
    convert_group_filters LdapFilters.nil = []
    convert_group_filters (LdapFilters.cons f fs) =
        convert_group_filter f ∷ convert_group_filters fs
