-- ===== src/Ldap/Fields.antt =====
-- crates/ldap/src/schema: what an attribute name stands for (definitions.rs), the map from names and
-- aliases that `SchemaManager::new` builds, and its use for users and groups (manager.rs).
pub mod Mapping
pub mod Tests
use klldap.Base.{
  Bool, true, false, not, ◌||◌, String, Option, none, some, List, [], ◌∷◌, ◌++◌, map, any,
  if◌then◌else◌,
}
use klldap.Text.{Str, codes, str_eq, to_ascii_lowercase, eq_ignore_ascii_case}
use klldap.Schema.{AttributeType, AttributeSchema, Schema, get_attribute_type}
use klldap.Domain.{AttributeName, attribute_name, UserColumn}

pub data LogicalAttr : Type 0 where
  object_class member_of dn entry_dn operational : LogicalAttr
  primary : UserColumn → LogicalAttr
  custom : Str → AttributeType → Bool → LogicalAttr

pub data UserFieldType : Type 0 where
  no_match object_class member_of dn entry_dn entry_uuid : UserFieldType
  primary_field : UserColumn → UserFieldType
  attribute : AttributeName → AttributeType → Bool → UserFieldType

pub data GroupFieldType : Type 0 where
  no_match group_id display_name creation_date modified_date object_class : GroupFieldType
  dn entry_dn entry_uuid unique_member member member_of uuid : GroupFieldType
  attribute : AttributeName → AttributeType → Bool → GroupFieldType

-- The hash map, the latest insertion first: lower-case name, meaning, canonical name.
abbrev pub AttributeMap : Type 0
AttributeMap = List (Str × LogicalAttr × Str)

unfoldable pub get : AttributeMap → Str → Option (LogicalAttr × Str)
get [] key = none
get ((k, logical, canonical) ∷ m) key =
    let later = get m key in if str_eq k key then some (logical, canonical) else later

-- The loop over the aliases in the closure `register`.
unfoldable pub register_aliases : LogicalAttr → Str → List Str → AttributeMap → AttributeMap
register_aliases logical canonical [] m = m
register_aliases logical canonical (alias ∷ aliases) m =
    let lower_alias = to_ascii_lowercase alias in
    register_aliases logical canonical aliases (
      if not (str_eq lower_alias (to_ascii_lowercase canonical))
      then (lower_alias, logical, canonical) ∷ m
      else m)

unfoldable pub register : LogicalAttr → Str → List Str → AttributeMap → AttributeMap
unfolding register_aliases
register logical canonical aliases m =
    register_aliases logical canonical aliases
      ((to_ascii_lowercase canonical, logical, canonical) ∷ m)

abbrev pub one_of : Str → List String → Bool
one_of s names = any (λ name. str_eq (codes name) s) names

-- `get_preferred_ldap_name` of attributes.rs.
abbrev standard_ldap_names : List String
standard_ldap_names =
    "cn" ∷ "sn" ∷ "givenname" ∷ "uid" ∷ "mail" ∷ "ou" ∷ "dc" ∷ "o" ∷ "c" ∷ "l" ∷ "st" ∷ "title"
    ∷ "description" ∷ "member" ∷ "uniquemember" ∷ "memberof" ∷ "createtimestamp" ∷ "modifytimestamp"
    ∷ "pwdchangedtime" ∷ "entryuuid" ∷ "hassubordinates" ∷ "structuralobjectclass"
    ∷ "subschemasubentry" ∷ "uidnumber" ∷ "gidnumber" ∷ "homedirectory" ∷ "loginshell"
    ∷ "sshpublickey" ∷ "krbprincipalname" ∷ "jpegphoto" ∷ "avatar" ∷ "loginDisabled" ∷ "sudoHost"
    ∷ []

unfoldable pub preferred_of : Str → List Str → Str
preferred_of name [] = name
preferred_of name (alias ∷ aliases) =
    let later = preferred_of name aliases in
    if one_of (to_ascii_lowercase alias) standard_ldap_names then alias else later

unfoldable pub get_preferred_ldap_name : AttributeSchema → Str
unfolding preferred_of
get_preferred_ldap_name attr = preferred_of attr.name attr.aliases

unfoldable pub determine_logical_attr : AttributeSchema → Str → LogicalAttr
determine_logical_attr attr preferred =
    let lower = to_ascii_lowercase preferred in
    if one_of lower (
      "hassubordinates" ∷ "structuralobjectclass" ∷ "subschemasubentry" ∷ "entryuuid" ∷ "uuid"
      ∷ "memberof" ∷ "ismemberof" ∷ [])
    then LogicalAttr.operational
    else if one_of lower ("uid" ∷ "user_id" ∷ "id" ∷ "userid" ∷ [])
    then LogicalAttr.primary UserColumn.user_id
    else if one_of lower ("mail" ∷ "email" ∷ [])
    then LogicalAttr.primary UserColumn.email
    else if one_of lower ("cn" ∷ "displayname" ∷ "display_name" ∷ [])
    then LogicalAttr.primary UserColumn.display_name
    else if one_of lower ("krbprincipalname" ∷ "krb_principal_name" ∷ [])
    then LogicalAttr.primary UserColumn.krb_principal_name
    else if one_of lower
        ("createtimestamp" ∷ "creationdate" ∷ "creation_date" ∷ "creationtimestamp" ∷ [])
    then LogicalAttr.primary UserColumn.creation_date
    else if one_of lower ("modifytimestamp" ∷ "modifieddate" ∷ "modified_date" ∷ "modifydate" ∷ [])
    then LogicalAttr.primary UserColumn.modified_date
    else if one_of lower ("pwdchangedtime" ∷ "passwordmodifieddate" ∷ "password_modified_date" ∷ [])
    then LogicalAttr.primary UserColumn.password_modified_date
    else LogicalAttr.custom attr.name attr.attribute_type attr.is_list

abbrev core_attr : LogicalAttr → String → List String → AttributeMap → AttributeMap
core_attr logical canonical aliases m = register logical (codes canonical) (map codes aliases) m

unfoldable pub core_attrs : AttributeMap
unfolding register
core_attrs = core_attr LogicalAttr.operational "sudoHost" ("sudoHost" ∷ []) (
    core_attr LogicalAttr.operational "loginDisabled" ("loginDisabled" ∷ []) (
      core_attr LogicalAttr.operational "entryUUID" ("uuid" ∷ []) (
        core_attr LogicalAttr.operational "modifiersName" []
          (core_attr LogicalAttr.operational "creatorsName" [] dated))))
  where
    dated : AttributeMap
    dated =
        core_attr LogicalAttr.operational "pwdChangedTime"
          ("passwordmodifieddate" ∷ "password_modified_date" ∷ [])
          (core_attr LogicalAttr.operational "modifyTimestamp"
            ("modifieddate" ∷ "modified_date" ∷ "modifydate" ∷ [])
            (core_attr LogicalAttr.operational "createTimestamp"
              ("creationdate" ∷ "creation_date" ∷ "creationtimestamp" ∷ [])
              (core_attr LogicalAttr.operational "subschemaSubentry" [] (
                core_attr LogicalAttr.operational "structuralObjectClass" [] (
                  core_attr LogicalAttr.operational "hasSubordinates" [] (
                    core_attr LogicalAttr.entry_dn "entryDN" [] (
                      core_attr LogicalAttr.dn "dn" ("distinguishedname" ∷ []) (
                        core_attr LogicalAttr.member_of "memberOf" ("ismemberof" ∷ [])
                          (core_attr LogicalAttr.object_class "objectClass" [] [])))))))))

unfoldable pub register_schema : List AttributeSchema → AttributeMap → AttributeMap
unfolding register determine_logical_attr get_preferred_ldap_name
register_schema [] m = m
register_schema (attr ∷ attrs) m =
    let preferred = get_preferred_ldap_name attr in
    register_schema attrs
      (register (determine_logical_attr attr preferred) preferred attr.aliases m)

-- `SchemaManager::new`.
unfoldable pub new_schema_manager : {P : Type 0} → Schema P → AttributeMap
unfolding core_attrs register_schema
new_schema_manager schema =
    register_schema schema.group_attributes.attributes
      (register_schema schema.user_attributes.attributes core_attrs)

unfoldable pub resolve_attribute : AttributeMap → Str → Option (LogicalAttr × Str)
unfolding get
resolve_attribute manager name = get manager (to_ascii_lowercase name)

abbrev canonical_or : Str → Option (LogicalAttr × Str) → Str
canonical_or name none = name
canonical_or name (some (logical, canonical)) = canonical

unfoldable pub get_canonical_name : AttributeMap → Str → Str
get_canonical_name manager name = canonical_or name (resolve_attribute manager name)

abbrev pub means_operational : Option (LogicalAttr × Str) → Bool
means_operational (some (LogicalAttr.operational, canonical)) = true
means_operational other = false

unfoldable pub is_operational : AttributeMap → Str → Bool
is_operational manager name = means_operational (resolve_attribute manager name)

abbrev pub is_uuid_name : Str → Bool
is_uuid_name name =
    eq_ignore_ascii_case name (codes "entryuuid") || eq_ignore_ascii_case name (codes "uuid")

abbrev pub user_field : LogicalAttr → Str → UserFieldType
user_field LogicalAttr.object_class name = UserFieldType.object_class
user_field LogicalAttr.member_of name = UserFieldType.member_of
user_field LogicalAttr.dn name = UserFieldType.dn
user_field LogicalAttr.entry_dn name = UserFieldType.entry_dn
user_field LogicalAttr.operational name =
    if is_uuid_name name then UserFieldType.entry_uuid else UserFieldType.no_match
user_field (LogicalAttr.primary col) name = UserFieldType.primary_field col
user_field (LogicalAttr.custom internal t is_list) name =
    UserFieldType.attribute (attribute_name internal) t is_list

abbrev pub user_attribute_or_none : AttributeName → Option (AttributeType × Bool) → UserFieldType
user_attribute_or_none field none = UserFieldType.no_match
user_attribute_or_none field (some (t, is_list)) = UserFieldType.attribute field t is_list

abbrev pub user_field_or : Option (LogicalAttr × Str) → Str → UserFieldType → UserFieldType
user_field_or (some (logical, canonical)) name fallback = user_field logical name
user_field_or none name fallback = fallback

unfoldable pub map_user_field :
    {P : Type 0} → AttributeMap → AttributeName → Schema P → UserFieldType
unfolding resolve_attribute
map_user_field manager field schema =
    user_field_or (resolve_attribute manager field.text) field.text
      (user_attribute_or_none field (get_attribute_type schema.user_attributes field.text))

abbrev pub group_column : UserColumn → GroupFieldType
group_column UserColumn.creation_date = GroupFieldType.creation_date
group_column UserColumn.modified_date = GroupFieldType.modified_date
group_column UserColumn.uuid = GroupFieldType.uuid
group_column UserColumn.display_name = GroupFieldType.display_name
group_column other = GroupFieldType.no_match

abbrev pub group_field : LogicalAttr → Str → GroupFieldType
group_field LogicalAttr.object_class name = GroupFieldType.object_class
group_field LogicalAttr.member_of name = GroupFieldType.member_of
group_field LogicalAttr.dn name = GroupFieldType.dn
group_field LogicalAttr.entry_dn name = GroupFieldType.entry_dn
group_field LogicalAttr.operational name =
    if is_uuid_name name then GroupFieldType.entry_uuid else GroupFieldType.no_match
group_field (LogicalAttr.primary col) name = group_column col
group_field (LogicalAttr.custom internal t is_list) name =
    GroupFieldType.attribute (attribute_name internal) t is_list

abbrev group_attribute_or_none : AttributeName → Option (AttributeType × Bool) → GroupFieldType
group_attribute_or_none field none = GroupFieldType.no_match
group_attribute_or_none field (some (t, is_list)) = GroupFieldType.attribute field t is_list

abbrev group_field_or : Option (LogicalAttr × Str) → Str → GroupFieldType → GroupFieldType
group_field_or (some (logical, canonical)) name fallback = group_field logical name
group_field_or none name fallback = fallback

unfoldable pub map_group_field :
    {P : Type 0} → AttributeMap → AttributeName → Schema P → GroupFieldType
unfolding resolve_attribute
map_group_field manager field schema =
    group_field_or (resolve_attribute manager field.text) field.text (
      if eq_ignore_ascii_case field.text (codes "member")
      then GroupFieldType.member
      else if eq_ignore_ascii_case field.text (codes "uniquemember")
      then GroupFieldType.unique_member
      else group_attribute_or_none field (get_attribute_type schema.group_attributes field.text))
