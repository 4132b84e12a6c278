-- ===== src/Sql/Filters/Leaves.antt =====
-- Every user filter without connectives that comes from LDAP makes a condition.
use klldap.Base.{◌≡◌, refl, ap, Bool, ◌++◌, [], ◌∷◌, Result, ok, err, arith}
use klldap.Text.{Str, codes, to_ascii_lowercase}
use klldap.Schema.{AttributeType}
use klldap.Domain.{UserColumn, AttributeName, attribute_name, AttributeValue}
use klldap.Domain.Deserialize.{deserialize_attribute_value}
use klldap.Handlers.{UserRequestFilter, SubStringFilter}
use klldap.Ldap.Error.{LdapResult}
use klldap.Ldap.Filter.{LdapFilter, sub_string_filter}
use klldap.Ldap.Fields.{UserFieldType, map_user_field}
use klldap.Ldap.Filters.{Context, map_or}
use klldap.Ldap.Filters.Users.{
  both_cases, uuid_filter, no_order, user_object_class, get_user_attribute_equality_filter,
  user_equality, user_equality_field, user_order, user_present, user_present_field, user_substring,
  convert_user_leaf,
}
use klldap.Sql.Values.{Codec}
use klldap.Sql.Filters.Users.{user_leaf_expr, get_user_filter_expr, get_user_filter_exprs}
use klldap.Sql.Filters.Users
use klldap.Sql.Filters.Total.{IsSound, is_supported, ok-IsSound}

module _ {D P : Type 0} (codec : Codec D) (to_lowercase : Str → Str) (c : Context D P) where
  abbrev Sound : LdapResult (UserRequestFilter D) → Type 0
  Sound r = IsSound codec to_lowercase r

  abbrev Supported : UserRequestFilter D → Type 0
  Supported f = is_supported codec to_lowercase f ≡ Bool.true

  map_or-IsSound :
      {A : Type 0} (make : A → UserRequestFilter D) (r : LdapResult A)
      → ((a : A) → Supported (make a))
      → Sound (map_or make UserRequestFilter.false r)
  unfolding user_leaf_expr
  map_or-IsSound make (ok a) h = ok-IsSound codec to_lowercase (make a) (h a)
  map_or-IsSound make (err e) h = refl

  both_cases-Supported :
      (name : AttributeName) (r t : Result Str (AttributeValue D))
      → Supported (both_cases c name r t)
  unfolding user_leaf_expr
  both_cases-Supported name (ok v) (ok w) = refl
  both_cases-Supported name (ok v) (err e) = refl
  both_cases-Supported name (err e) t = refl

  attribute_equality-Supported :
      (name : AttributeName) (typ : AttributeType) (is_list : Bool) (value : Str)
      → Supported (get_user_attribute_equality_filter c name typ is_list value)
  unfolding get_user_attribute_equality_filter
  attribute_equality-Supported name typ is_list value =
      both_cases-Supported name (deserialize_attribute_value c.parsers (value ∷ []) typ is_list)
        (deserialize_attribute_value c.parsers (to_ascii_lowercase value ∷ []) typ is_list)

  user_equality_field-IsSound :
      (field : UserFieldType) (value value_lc : Str)
      → Sound (user_equality_field c field value value_lc)
  unfolding user_equality_field user_leaf_expr Users.user_equality
  user_equality_field-IsSound (UserFieldType.primary_field UserColumn.user_id) value value_lc = refl
  user_equality_field-IsSound (UserFieldType.primary_field UserColumn.email) value value_lc = refl
  user_equality_field-IsSound (UserFieldType.primary_field column) value value_lc = refl
  user_equality_field-IsSound (UserFieldType.attribute name typ is_list) value value_lc =
      ok-IsSound codec to_lowercase (get_user_attribute_equality_filter c name typ is_list value)
        (attribute_equality-Supported name typ is_list value)
  user_equality_field-IsSound UserFieldType.no_match value value_lc = refl
  user_equality_field-IsSound UserFieldType.object_class value value_lc = refl
  user_equality_field-IsSound UserFieldType.member_of value value_lc =
      map_or-IsSound UserRequestFilter.member_of _ (λ g. refl)
  user_equality_field-IsSound UserFieldType.entry_dn value value_lc =
      map_or-IsSound UserRequestFilter.user_id _ (λ u. refl)
  user_equality_field-IsSound UserFieldType.dn value value_lc =
      map_or-IsSound UserRequestFilter.user_id _ (λ u. refl)
  user_equality_field-IsSound UserFieldType.entry_uuid value value_lc =
      uuid_filter-IsSound value (c.parsers.parse_uuid value)
    where
      uuid_filter-IsSound : (v : Str) (r : Result Str Str) → Sound (uuid_filter c v r)
      uuid_filter-IsSound v (ok parsed) = refl
      uuid_filter-IsSound v (err e) = refl

  user_equality-IsSound : (name value : Str) → Sound (user_equality c name value)
  unfolding user_equality user_leaf_expr
  user_equality-IsSound name value = ground (
    arith,
    user_equality_field-IsSound (map_user_field c.manager (attribute_name name) c.schema) value
        (to_ascii_lowercase value),
  )

  user_order-IsSound :
      (column : UserColumn → Str → UserRequestFilter D)
      (attribute : AttributeName → Str → UserRequestFilter D) (message : Str)
      (field : UserFieldType) (value : Str)
      → Supported (column UserColumn.creation_date value)
      → Supported (column UserColumn.modified_date value)
      → Supported (column UserColumn.password_modified_date value)
      → ((name : AttributeName) → Supported (attribute name value))
      → Sound (user_order c column attribute message field value)
  unfolding user_order
  user_order-IsSound column attribute message (UserFieldType.primary_field UserColumn.creation_date)
        value h k l m =
      ap ok h
  user_order-IsSound column attribute message (UserFieldType.primary_field UserColumn.modified_date)
        value h k l m =
      ap ok k
  user_order-IsSound column attribute message
        (UserFieldType.primary_field UserColumn.password_modified_date) value h k l m =
      ap ok l
  user_order-IsSound column attribute message (UserFieldType.primary_field f) value h k l m = refl
  user_order-IsSound column attribute message
        (UserFieldType.attribute name AttributeType.date_time is_list) value h k l m =
      ap ok (m name)
  user_order-IsSound column attribute message field value h k l m = refl

  user_present_field-Supported : (field : UserFieldType) → Supported (user_present_field c field)
  unfolding user_present_field user_leaf_expr
  user_present_field-Supported (UserFieldType.attribute name typ is_list) = refl
  user_present_field-Supported UserFieldType.no_match = refl
  user_present_field-Supported field = refl

  user_present-Supported : (name : Str) → Supported (user_present c name)
  unfolding user_present user_leaf_expr
  user_present-Supported name = ground (
    arith,
    user_present_field-Supported (map_user_field c.manager (attribute_name name) c.schema),
  )

  user_substring-IsSound :
      (field : UserFieldType) (s : SubStringFilter) (message : Str)
      → Sound (user_substring c field s message)
  unfolding user_substring user_leaf_expr
  user_substring-IsSound (UserFieldType.primary_field UserColumn.user_id) s message = refl
  user_substring-IsSound (UserFieldType.primary_field UserColumn.creation_date) s message = refl
  user_substring-IsSound (UserFieldType.primary_field UserColumn.uuid) s message = refl
  user_substring-IsSound (UserFieldType.primary_field UserColumn.email) s message = refl
  user_substring-IsSound (UserFieldType.primary_field column) s message = refl
  user_substring-IsSound (UserFieldType.attribute name AttributeType.string is_list) s message =
      refl
  user_substring-IsSound (UserFieldType.attribute name typ is_list) s message = refl
  user_substring-IsSound UserFieldType.no_match s message = refl
  user_substring-IsSound field s message = refl

  user_object_class-Supported : (value : Str) → Supported (user_object_class c value)
  unfolding user_object_class user_leaf_expr
  user_object_class-Supported value = ground arith

  pub convert_user_leaf-IsSound : (f : LdapFilter) → Sound (convert_user_leaf c f)
  unfolding convert_user_leaf user_leaf_expr
  convert_user_leaf-IsSound (LdapFilter.equality name value) =
      ground (arith, user_object_class-Supported value, user_equality-IsSound name value)
  convert_user_leaf-IsSound (LdapFilter.greater_or_equal name value) =
      user_order-IsSound UserRequestFilter.greater_or_equal
        UserRequestFilter.attribute_greater_or_equal
        (no_order c (codes "GreaterOrEqual") (attribute_name name))
        (map_user_field c.manager (attribute_name name) c.schema) value refl refl refl (λ n. refl)
  convert_user_leaf-IsSound (LdapFilter.less_or_equal name value) =
      user_order-IsSound UserRequestFilter.less_or_equal UserRequestFilter.attribute_less_or_equal
        (no_order c (codes "LessOrEqual") (attribute_name name))
        (map_user_field c.manager (attribute_name name) c.schema) value refl refl refl (λ n. refl)
  convert_user_leaf-IsSound (LdapFilter.present name) = ap ok (user_present-Supported name)
  convert_user_leaf-IsSound (LdapFilter.substring name s) =
      user_substring-IsSound (map_user_field c.manager (attribute_name name) c.schema)
        (sub_string_filter s)
        (codes "Unsupported user attribute for substring filter: "
          ++ c.printers.debug_name (attribute_name name))
  convert_user_leaf-IsSound f = refl
