-- ===== src/Ldap/Attributes/Tests.antt =====
-- A concrete schema, user and group.
use klldap.Base.{◌≡◌, ◌≢◌, refl, false, true, none, some, List, [], ◌∷◌, any}
use klldap.Text.{Str, codes, str_eq, to_ascii_lowercase, lower, eq_ignore_ascii_case}
use klldap.Domain.{attribute_name, pos, Group}
use klldap.Schema.{Schema, AttributeType, AttributeSchema}
use klldap.Ldap.Dn.{build_user_dn}
use klldap.Ldap.Fields.{
  new_schema_manager, core_attrs, get, register, register_aliases, resolve_attribute,
  map_group_field,
}
use klldap.Ldap.World.Sample.{bob, alice, user_of, staff}
use klldap.Ldap.Attributes.Values.{
  Conversions, panics, get_user_attribute, present, unless_blank, get_group_attribute,
}
use klldap.Ldap.Attributes.Panics.{get_user_attribute-ne-panics}
use klldap.Ldap.Attributes.Laws.{is_members, get_group_attribute-members}

abbrev conversions : Conversions Unit
conversions = record {
  as_bytes = λ s. s;
  display_i64 = λ i. codes "5";
  to_generalized_time = λ t. codes "20260101120000.000000000Z";
}

abbrev nickname : AttributeSchema
nickname = record {
  name = codes "nickname";
  aliases = [];
  attribute_type = AttributeType.string;
  is_list = false;
  is_visible = true;
  is_editable = true;
  is_hardcoded = false;
  is_readonly = false;
}

abbrev schema : Schema Unit
schema = record {
  user_attributes = record { attributes = nickname ∷ [] };
  group_attributes = record { attributes = [] };
  system_attributes = record { attributes = [] };
  posix_settings = tt;
  extra_user_object_classes = [];
  extra_group_object_classes = [];
}

abbrev base : Str
base = codes "dc=example,dc=com"

abbrev crew : Group Unit
crew = record {
  id = record { id = pos 5 };
  display_name = record { text = codes "crew" };
  creation_date = tt;
  uuid = codes "f00d";
  users =
      record { user_id = bob; ou = codes "people" }
      ∷ record { user_id = alice; ou = codes "people" }
      ∷ [];
  attributes = [];
  modified_date = tt;
}

get_user_attribute-ne-panics_example :
    get_user_attribute conversions
      (new_schema_manager schema)
      schema
      base
      (user_of bob)
      (attribute_name (codes "passwordHash"))
      (some (staff ∷ []))
      []
    ≢ panics
unfolding to_ascii_lowercase lower str_eq attribute_name
get_user_attribute-ne-panics_example =
    get_user_attribute-ne-panics conversions schema base (user_of bob)
      (attribute_name (codes "passwordHash")) (some (staff ∷ [])) [] refl

member-is_members :
    is_members (map_group_field core_attrs (attribute_name (codes "member")) schema) ≡ true
unfolding map_group_field resolve_attribute core_attrs register register_aliases get str_eq
    to_ascii_lowercase lower eq_ignore_ascii_case attribute_name
member-is_members = refl

get_group_attribute-members_example :
    (vals : List Str) × (get_group_attribute conversions core_attrs schema base crew
        (attribute_name (codes "member"))
        none
        []
      ≡ unless_blank (present vals))
    × ((v : Str)
        → any (λ w. str_eq w v) vals
          ≡ any (λ u. str_eq (build_user_dn u.user_id u.ou base) v) crew.users)
get_group_attribute-members_example =
    get_group_attribute-members conversions schema base core_attrs crew
      (attribute_name (codes "member")) [] member-is_members
