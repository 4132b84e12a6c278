-- ===== src/Ldap/Attributes/Values.antt =====
-- crates/ldap/src/attributes.rs: the values of an attribute of a user or of a group, as bytes.
use klldap.Base.{
  Bool, true, ◌||◌, Option, none, some, List, [], ◌∷◌, map, any, retain, find?, if◌then◌else◌,
}
use klldap.Text.{Str, codes, str_eq, eq_ignore_ascii_case, is_empty}
use klldap.Auth.{UserId}
use klldap.Schema.{Schema}
use klldap.Domain.{
  ℤ, singleton, unbounded, AttributeValue, Attribute, AttributeName, attribute_name, User,
  GroupMember, Group, GroupDetails, UserColumn,
}
use klldap.Ldap.Ou.{default_primary_group_ou}
use klldap.Ldap.Dn.{build_user_dn, build_group_dn}
use klldap.Ldap.Fields.{
  AttributeMap, UserFieldType, GroupFieldType, map_user_field, map_group_field,
}
use klldap.Ldap.Wildcards.{str_lt}
use klldap.Ldap.Attributes.{get_user_ou, get_group_ou}

-- `String::into_bytes`, the printing of numbers, and the format of a time in UTC.
pub record Conversions (D : Type 0) : Type 0 where
  pub as_bytes : Str → Str
  pub display_i64 : ℤ → Str
  pub to_generalized_time : D → Str

-- What the resolution of an attribute answers: `None`, the values, or a panic.
pub data Values : Type 0 where
  panics absent : Values
  present : List Str → Values

-- One empty value counts as none.
abbrev pub unless_blank : Values → Values
unless_blank panics = panics
unless_blank absent = absent
unless_blank (present []) = present []
unless_blank (present (v ∷ [])) = if is_empty v then absent else present (v ∷ [])
unless_blank (present (v ∷ (w ∷ vs))) = present (v ∷ w ∷ vs)

-- The operator `?` on values that may be missing.
abbrev or_absent : Option (List Str) → Values
or_absent none = absent
or_absent (some vs) = present vs

-- `BTreeSet::insert`.
unfoldable pub insert_text : Str → List Str → List Str
insert_text s [] = s ∷ []
insert_text s (t ∷ ts) =
    let later = insert_text s ts in
    if str_eq s t then t ∷ ts else if str_lt s t then s ∷ t ∷ ts else t ∷ later

unfoldable pub sorted_texts : List Str → List Str
sorted_texts [] = []
sorted_texts (s ∷ ss) = insert_text s (sorted_texts ss)

module _ {D : Type 0} (c : Conversions D) where
  abbrev attribute_values : AttributeValue D → List Str
  attribute_values (AttributeValue.string (singleton s)) = c.as_bytes s ∷ []
  attribute_values (AttributeValue.string (unbounded l)) = map c.as_bytes l
  attribute_values (AttributeValue.integer (singleton i)) = c.as_bytes (c.display_i64 i) ∷ []
  attribute_values (AttributeValue.integer (unbounded l)) =
      map (λ i. c.as_bytes (c.display_i64 i)) l
  attribute_values (AttributeValue.avatar (singleton p)) = p.bytes ∷ []
  attribute_values (AttributeValue.avatar (unbounded l)) = map (λ p. p.bytes) l
  attribute_values (AttributeValue.date_time (singleton dt)) = c.to_generalized_time dt ∷ []
  attribute_values (AttributeValue.date_time (unbounded l)) = map c.to_generalized_time l

  abbrev values_of_found : Option (Attribute D) → Option (List Str)
  values_of_found none = none
  values_of_found (some a) = some (attribute_values a.value)

  unfoldable pub get_custom_attribute : List (Attribute D) → AttributeName → Option (List Str)
  get_custom_attribute attributes name =
      values_of_found (find? (λ a. str_eq a.name.text name.text) attributes)

  abbrev one_text : Str → Values
  one_text s = present (c.as_bytes s ∷ [])

  abbrev one_text_or_absent : Option Str → Values
  one_text_or_absent none = absent
  one_text_or_absent (some s) = one_text s

  abbrev single_text_or : Str → Option (Attribute D) → Str
  single_text_or default none = default
  single_text_or default (some a) = elim a.value [
    | AttributeValue.string (singleton s) ↦ s
    | other ↦ default
  ]

  -- The unit of a group in `memberOf`, which reads no list.
  unfoldable pub member_of_ou : GroupDetails D → Str
  member_of_ou group =
      single_text_or default_primary_group_ou
        (find? (λ a. eq_ignore_ascii_case a.name.text (codes "ou")) group.attributes)

  abbrev listed : {A : Type 0} → Option (List A) → List A
  listed none = []
  listed (some xs) = xs

  abbrev in_group : Str → Option (List (GroupDetails D)) → Bool
  in_group name groups = any (λ g. str_eq g.display_name.text name) (listed groups)

  abbrev pub passes : Option UserId → GroupMember → Bool
  passes none u = true
  passes (some f) u = str_eq u.user_id.text f.text

  -- The members that the filter lets through, as a sorted set of DNs.
  unfoldable pub member_values : Str → Group D → Option UserId → List Str
  member_values base_dn_str group user_filter = map c.as_bytes (
      sorted_texts (
        map (λ u. build_user_dn u.user_id u.ou base_dn_str)
          (retain (passes user_filter) group.users)))

  module _ {P : Type 0} (manager : AttributeMap) (schema : Schema P) (base_dn_str : Str) where
    -- `get_default_user_object_classes_bytes` and its counterpart for groups.
    abbrev pub user_object_classes : List Str
    user_object_classes =
        codes "top" ∷ codes "person" ∷ map c.as_bytes schema.extra_user_object_classes

    abbrev pub group_object_classes : List Str
    group_object_classes =
        codes "groupOfUniqueNames"
        ∷ codes "groupOfNames"
        ∷ map c.as_bytes schema.extra_group_object_classes

    abbrev primary_value : User D → UserColumn → Values
    primary_value user UserColumn.user_id = one_text user.user_id.text
    primary_value user UserColumn.email = one_text user.email.text
    primary_value user UserColumn.lowercase_email = panics
    primary_value user UserColumn.password_hash = panics
    primary_value user UserColumn.totp_secret = panics
    primary_value user UserColumn.mfa_type = panics
    primary_value user UserColumn.uuid = one_text user.uuid
    primary_value user UserColumn.display_name = one_text_or_absent user.display_name
    primary_value user UserColumn.creation_date =
        present (c.to_generalized_time user.creation_date ∷ [])
    primary_value user UserColumn.modified_date =
        present (c.to_generalized_time user.modified_date ∷ [])
    primary_value user UserColumn.password_modified_date =
        present (c.to_generalized_time user.password_modified_date ∷ [])
    primary_value user UserColumn.krb_principal_name = one_text_or_absent user.krb_principal_name

    -- The arm for names without a meaning, but for the virtual attributes of users.
    abbrev unmatched_value : List (Attribute D) → List AttributeName → AttributeName → Values
    unmatched_value attributes ignored attribute =
        if any (λ i. str_eq i.text attribute.text) ignored
        then absent
        else or_absent (get_custom_attribute attributes attribute)

    abbrev user_no_match :
        User D → Option (List (GroupDetails D)) → List AttributeName → AttributeName → Values
    user_no_match user groups ignored attribute =
        if str_eq attribute.text (codes "1.1") || str_eq attribute.text (codes "+")
        then absent
        else if str_eq attribute.text (codes "*")
        then panics
        else if eq_ignore_ascii_case attribute.text (codes "logindisabled")
        then (if in_group (codes "lldap_disabled") groups
            then present (codes "TRUE" ∷ [])
            else absent)
        else if eq_ignore_ascii_case attribute.text (codes "sudohost")
        then (if in_group (codes "lldap_sudohost") groups
            then present (codes "ALL" ∷ [])
            else absent)
        else unmatched_value user.attributes ignored attribute

    abbrev pub user_value :
        User D
        → Option (List (GroupDetails D))
        → List AttributeName
        → AttributeName
        → UserFieldType
        → Values
    user_value user groups ignored attribute UserFieldType.object_class =
        present user_object_classes
    user_value user groups ignored attribute UserFieldType.dn = absent
    user_value user groups ignored attribute UserFieldType.entry_dn =
        one_text (build_user_dn user.user_id (get_user_ou user) base_dn_str)
    user_value user groups ignored attribute UserFieldType.entry_uuid = one_text user.uuid
    user_value user groups ignored attribute UserFieldType.member_of = present (
        map (λ g. c.as_bytes (build_group_dn g.display_name (member_of_ou g) base_dn_str))
          (listed groups))
    user_value user groups ignored attribute (UserFieldType.primary_field col) =
        primary_value user col
    user_value user groups ignored attribute (UserFieldType.attribute name t is_list) =
        or_absent (get_custom_attribute user.attributes name)
    user_value user groups ignored attribute UserFieldType.no_match =
        user_no_match user groups ignored attribute

    unfoldable pub get_user_attribute :
        User D → AttributeName → Option (List (GroupDetails D)) → List AttributeName → Values
    get_user_attribute user field groups ignored =
        let attribute = attribute_name field.text in
        unless_blank
          (user_value user groups ignored attribute (map_user_field manager attribute schema))

    abbrev pub group_value :
        Group D → AttributeName → Option UserId → List AttributeName → GroupFieldType → Values
    group_value group attribute user_filter ignored GroupFieldType.object_class =
        present group_object_classes
    group_value group attribute user_filter ignored GroupFieldType.dn = absent
    group_value group attribute user_filter ignored GroupFieldType.entry_dn =
        one_text (build_group_dn group.display_name (get_group_ou group) base_dn_str)
    group_value group attribute user_filter ignored GroupFieldType.entry_uuid = one_text group.uuid
    group_value group attribute user_filter ignored GroupFieldType.group_id =
        one_text (c.display_i64 group.id.id)
    group_value group attribute user_filter ignored GroupFieldType.display_name =
        one_text group.display_name.text
    group_value group attribute user_filter ignored GroupFieldType.creation_date =
        present (c.to_generalized_time group.creation_date ∷ [])
    group_value group attribute user_filter ignored GroupFieldType.modified_date =
        present (c.to_generalized_time group.modified_date ∷ [])
    group_value group attribute user_filter ignored GroupFieldType.member =
        present (member_values base_dn_str group user_filter)
    group_value group attribute user_filter ignored GroupFieldType.unique_member =
        present (member_values base_dn_str group user_filter)
    group_value group attribute user_filter ignored GroupFieldType.member_of = absent
    group_value group attribute user_filter ignored GroupFieldType.uuid = one_text group.uuid
    group_value group attribute user_filter ignored (GroupFieldType.attribute name t is_list) =
        or_absent (get_custom_attribute group.attributes name)
    group_value group attribute user_filter ignored GroupFieldType.no_match =
        if str_eq attribute.text (codes "1.1") || str_eq attribute.text (codes "+")
        then absent
        else if str_eq attribute.text (codes "*")
        then panics
        else unmatched_value group.attributes ignored attribute

    unfoldable pub get_group_attribute :
        Group D → AttributeName → Option UserId → List AttributeName → Values
    get_group_attribute group attribute user_filter ignored =
        unless_blank (
          group_value group attribute user_filter ignored
            (map_group_field manager attribute schema))
