-- ===== src/Ldap/Filters/Users.antt =====
-- `convert_user_filter`.
pub mod Meaning
use klldap.Base.{
  Bool, true, false, ◌||◌, Option, none, some, List, [], ◌∷◌, ◌++◌, map, if◌then◌else◌, Result, ok,
  err, ◌>>=◌, map_ok,
}
use klldap.Text.{Str, codes, to_ascii_lowercase, eq_ignore_ascii_case}
use klldap.Auth.{UserId, user_id}
use klldap.Schema.{AttributeType}
use klldap.Domain.{AttributeName, attribute_name, AttributeValue, GroupName, UserColumn}
use klldap.Domain.Deserialize.{Parsers, deserialize_attribute_value}
use klldap.Handlers
use klldap.Handlers.{UserRequestFilter, UserFilters, user_list, user_vec}
use klldap.Ldap.Error.{LdapError, LdapResult}
use klldap.Ldap.Dn.{
  get_group_id_from_distinguished_name_or_plain_name,
  get_user_id_from_distinguished_name_or_plain_name,
}
use klldap.Ldap.Filter.{LdapFilter, LdapFilters, LdapSubstringFilter, sub_string_filter}
use klldap.Ldap.Fields.{UserFieldType, map_user_field}
use klldap.Ldap.Simplify.{simplify}
use klldap.Ldap.Filters.{
  Context, group_name, is_text, contains_text, unwilling, other_error, map_or,
}

abbrev pub is_true : {D : Type 0} → UserRequestFilter D → Bool
is_true UserRequestFilter.true = true
is_true other = false

abbrev pub is_false : {D : Type 0} → UserRequestFilter D → Bool
is_false UserRequestFilter.false = true
is_false other = false

-- The parts that a filter adds to a conjunction, and to a disjunction.
abbrev pub and_parts : {D : Type 0} → UserRequestFilter D → List (UserRequestFilter D)
and_parts (UserRequestFilter.and fs) = user_list fs
and_parts other = other ∷ []

abbrev pub or_parts : {D : Type 0} → UserRequestFilter D → List (UserRequestFilter D)
or_parts (UserRequestFilter.or fs) = user_list fs
or_parts other = other ∷ []

unfoldable pub simplify_and :
    {D : Type 0} → List (LdapResult (UserRequestFilter D)) → LdapResult (UserRequestFilter D)
simplify_and rs =
    simplify is_true and_parts UserRequestFilter.true (λ fs. UserRequestFilter.and (user_vec fs)) rs

unfoldable pub simplify_or :
    {D : Type 0} → List (LdapResult (UserRequestFilter D)) → LdapResult (UserRequestFilter D)
simplify_or rs =
    simplify is_false or_parts UserRequestFilter.false (λ fs. UserRequestFilter.or (user_vec fs)) rs

abbrev pub negate : {D : Type 0} → UserRequestFilter D → UserRequestFilter D
negate UserRequestFilter.true = UserRequestFilter.false
negate UserRequestFilter.false = UserRequestFilter.true
negate f = UserRequestFilter.not f

module _ {D P : Type 0} (c : Context D P) where
  abbrev pub both_cases :
      AttributeName
      → Result Str (AttributeValue D)
      → Result Str (AttributeValue D)
      → UserRequestFilter D
  both_cases field (ok v) (ok v_lc) = UserRequestFilter.or (
      UserFilters.cons (UserRequestFilter.attribute_equality field v)
        (UserFilters.cons (UserRequestFilter.attribute_equality field v_lc) UserFilters.nil))
  both_cases field (ok v) (err e) = UserRequestFilter.false
  both_cases field (err e) other = UserRequestFilter.false

  unfoldable pub get_user_attribute_equality_filter :
      AttributeName → AttributeType → Bool → Str → UserRequestFilter D
  get_user_attribute_equality_filter field typ is_list value =
      both_cases field (deserialize_attribute_value c.parsers (value ∷ []) typ is_list)
        (deserialize_attribute_value c.parsers (to_ascii_lowercase value ∷ []) typ is_list)

  -- The arm for `objectClass`.
  unfoldable pub user_object_class : Str → UserRequestFilter D
  user_object_class value =
      let v = to_ascii_lowercase value in
      if is_text v "top"
        || is_text v "person"
        || is_text v "inetorgperson"
        || is_text v "posixaccount"
        || is_text v "ldappublickey"
        || contains_text (map to_ascii_lowercase c.schema.extra_user_object_classes) v
      then UserRequestFilter.true
      else UserRequestFilter.false

  abbrev pub uuid_filter : Str → Result Str Str → LdapResult (UserRequestFilter D)
  uuid_filter value (ok parsed) = ok (UserRequestFilter.equality UserColumn.uuid value)
  uuid_filter value (err e) = err (other_error (codes "Invalid UUID in filter: " ++ e))

  abbrev user_equality_column : UserColumn → Str → UserRequestFilter D
  user_equality_column UserColumn.user_id value_lc = UserRequestFilter.user_id (user_id value_lc)
  user_equality_column UserColumn.email value_lc =
      UserRequestFilter.equality UserColumn.lowercase_email value_lc
  user_equality_column column value_lc = UserRequestFilter.equality column value_lc

  -- The match on the field's type in the arm for equality.
  unfoldable pub user_equality_field : UserFieldType → Str → Str → LdapResult (UserRequestFilter D)
  user_equality_field (UserFieldType.primary_field column) value value_lc =
      ok (user_equality_column column value_lc)
  user_equality_field (UserFieldType.attribute field typ is_list) value value_lc =
      ok (get_user_attribute_equality_filter field typ is_list value)
  user_equality_field UserFieldType.no_match value value_lc = ok UserRequestFilter.false
  user_equality_field UserFieldType.object_class value value_lc =
      ok (UserRequestFilter.and UserFilters.nil)
  user_equality_field UserFieldType.member_of value value_lc =
      map_or UserRequestFilter.member_of UserRequestFilter.false (
        get_group_id_from_distinguished_name_or_plain_name value_lc c.ldap_info.base_dn
          c.ldap_info.base_dn_str)
  user_equality_field UserFieldType.entry_dn value value_lc =
      map_or UserRequestFilter.user_id UserRequestFilter.false (
        get_user_id_from_distinguished_name_or_plain_name value_lc c.ldap_info.base_dn
          c.ldap_info.base_dn_str)
  user_equality_field UserFieldType.dn value value_lc =
      map_or UserRequestFilter.user_id UserRequestFilter.false (
        get_user_id_from_distinguished_name_or_plain_name value_lc c.ldap_info.base_dn
          c.ldap_info.base_dn_str)
  user_equality_field UserFieldType.entry_uuid value value_lc =
      uuid_filter value (c.parsers.parse_uuid value)

  -- The arm for equality, with the virtual attributes `loginDisabled` and `sudoHost`.
  unfoldable pub user_equality : Str → Str → LdapResult (UserRequestFilter D)
  user_equality name value =
      let field = attribute_name name in
      let value_lc = to_ascii_lowercase value in
      if eq_ignore_ascii_case field.text (codes "logindisabled")
      then ok (
          if is_text value_lc "true" || is_text value_lc "1" || is_text value_lc "yes"
          then UserRequestFilter.member_of (group_name "lldap_disabled")
          else UserRequestFilter.false)
      else if eq_ignore_ascii_case field.text (codes "sudohost")
      then ok (
          if is_text value_lc "*"
            || is_text value_lc "all"
            || is_text value_lc "true"
            || is_text value_lc "1"
          then UserRequestFilter.member_of (group_name "lldap_sudohost")
          else UserRequestFilter.false)
      else user_equality_field (map_user_field c.manager field c.schema) value value_lc

  abbrev is_date_column : UserColumn → Bool
  is_date_column UserColumn.creation_date = true
  is_date_column UserColumn.modified_date = true
  is_date_column UserColumn.password_modified_date = true
  is_date_column other = false

  -- The arms for `>=` and `<=`: `column` and `attribute` build the filter.
  unfoldable pub user_order :
      (UserColumn → Str → UserRequestFilter D)
      → (AttributeName → Str → UserRequestFilter D)
      → Str
      → UserFieldType
      → Str
      → LdapResult (UserRequestFilter D)
  user_order column attribute message (UserFieldType.primary_field f) value =
      if is_date_column f then ok (column f value) else err (unwilling message)
  user_order column attribute message (UserFieldType.attribute name AttributeType.date_time is_list)
        value =
      ok (attribute name value)
  user_order column attribute message other value = err (unwilling message)

  unfoldable pub user_present_field : UserFieldType → UserRequestFilter D
  user_present_field (UserFieldType.attribute name typ is_list) =
      UserRequestFilter.custom_attribute_present name
  user_present_field UserFieldType.no_match = UserRequestFilter.false
  user_present_field other = UserRequestFilter.true

  -- The arm for presence.
  unfoldable pub user_present : Str → UserRequestFilter D
  user_present name =
      let field = attribute_name name in
      if eq_ignore_ascii_case field.text (codes "logindisabled")
      then UserRequestFilter.member_of (group_name "lldap_disabled")
      else if eq_ignore_ascii_case field.text (codes "sudohost")
      then UserRequestFilter.member_of (group_name "lldap_sudohost")
      else user_present_field (map_user_field c.manager field c.schema)

  abbrev user_substring_column :
      UserColumn → Handlers.SubStringFilter → Str → LdapResult (UserRequestFilter D)
  user_substring_column UserColumn.user_id s message = ok (UserRequestFilter.user_id_sub_string s)
  user_substring_column UserColumn.creation_date s message = err (unwilling message)
  user_substring_column UserColumn.uuid s message = err (unwilling message)
  user_substring_column UserColumn.email s message =
      ok (UserRequestFilter.sub_string UserColumn.lowercase_email s)
  user_substring_column column s message = ok (UserRequestFilter.sub_string column s)

  -- The arm for substrings.
  unfoldable pub user_substring :
      UserFieldType → Handlers.SubStringFilter → Str → LdapResult (UserRequestFilter D)
  user_substring (UserFieldType.primary_field column) s message =
      user_substring_column column s message
  user_substring (UserFieldType.attribute name AttributeType.string is_list) s message =
      ok (UserRequestFilter.attribute_sub_string name s)
  user_substring (UserFieldType.attribute name typ is_list) s message = err (unwilling message)
  user_substring UserFieldType.no_match s message = ok UserRequestFilter.false
  user_substring other s message = err (unwilling message)

  abbrev pub no_order : Str → AttributeName → Str
  no_order operator field = operator ++ (codes " not supported on this attribute: " ++ field.text)

  -- A filter with no connective.
  unfoldable pub convert_user_leaf : LdapFilter → LdapResult (UserRequestFilter D)
  convert_user_leaf (LdapFilter.equality name value) =
      if eq_ignore_ascii_case name (codes "objectclass")
      then ok (user_object_class value)
      else user_equality name value
  convert_user_leaf (LdapFilter.greater_or_equal name value) =
      user_order UserRequestFilter.greater_or_equal UserRequestFilter.attribute_greater_or_equal
        (no_order (codes "GreaterOrEqual") (attribute_name name))
        (map_user_field c.manager (attribute_name name) c.schema) value
  convert_user_leaf (LdapFilter.less_or_equal name value) =
      user_order UserRequestFilter.less_or_equal UserRequestFilter.attribute_less_or_equal
        (no_order (codes "LessOrEqual") (attribute_name name))
        (map_user_field c.manager (attribute_name name) c.schema) value
  convert_user_leaf (LdapFilter.present name) = ok (user_present name)
  convert_user_leaf (LdapFilter.substring name s) =
      user_substring (map_user_field c.manager (attribute_name name) c.schema) (sub_string_filter s)
        (codes "Unsupported user attribute for substring filter: "
          ++ c.printers.debug_name (attribute_name name))
  convert_user_leaf f =
      err (unwilling (codes "Unsupported user filter: " ++ c.printers.debug_filter f))

  unfoldable mutual
    unfolding simplify_and simplify_or

    pub convert_user_filter : LdapFilter → LdapResult (UserRequestFilter D)
    convert_user_filter (LdapFilter.and fs) = simplify_and (convert_user_filters fs)
    convert_user_filter (LdapFilter.or fs) = simplify_or (convert_user_filters fs)
    convert_user_filter (LdapFilter.not f) = map_ok negate (convert_user_filter f)
    convert_user_filter f = convert_user_leaf f

    -- `filters.iter().map(rec)`.
    pub convert_user_filters : LdapFilters → List (LdapResult (UserRequestFilter D))
    convert_user_filters LdapFilters.nil = []
    convert_user_filters (LdapFilters.cons f fs) = convert_user_filter f ∷ convert_user_filters fs
