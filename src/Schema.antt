-- ===== src/Schema.antt =====
-- crates/schema/src/schema.rs: attribute lists and look-up by name or alias; the accessors of
-- `PublicSchema` in crates/schema/src/public_schema.rs.
use klldap.Base.{Bool, ◌||◌, List, Option, none, some, any, find?}
use klldap.Text.{Str, eq_ignore_ascii_case}

pub data AttributeType : Type 0 where
  string integer avatar date_time : AttributeType

pub record AttributeSchema : Type 0 where
  pub name : Str
  pub aliases : List Str
  pub attribute_type : AttributeType
  pub is_list : Bool
  pub is_visible : Bool
  pub is_editable : Bool
  pub is_hardcoded : Bool
  pub is_readonly : Bool

pub record AttributeList : Type 0 where
  pub attributes : List AttributeSchema

-- The POSIX settings are carried and never read here.
pub record Schema (Posix : Type 0) : Type 0 where
  pub user_attributes : AttributeList
  pub group_attributes : AttributeList
  pub system_attributes : AttributeList
  pub posix_settings : Posix
  pub extra_user_object_classes : List Str
  pub extra_group_object_classes : List Str

-- The closure of `find`.
abbrev pub has_name : Str → AttributeSchema → Bool
has_name name a =
    eq_ignore_ascii_case a.name name || any (λ alias. eq_ignore_ascii_case alias name) a.aliases

unfoldable pub get_by_name_or_alias : AttributeList → Str → Option AttributeSchema
get_by_name_or_alias l name = find? (has_name name) l.attributes

abbrev type_of_attribute : Option AttributeSchema → Option (AttributeType × Bool)
type_of_attribute none = none
type_of_attribute (some a) = some (a.attribute_type, a.is_list)

unfoldable pub get_attribute_type : AttributeList → Str → Option (AttributeType × Bool)
unfolding get_by_name_or_alias
get_attribute_type l name = type_of_attribute (get_by_name_or_alias l name)

abbrev name_of_attribute : Option AttributeSchema → Option Str
name_of_attribute none = none
name_of_attribute (some a) = some a.name

unfoldable pub resolve_canonical_name : AttributeList → Str → Option Str
unfolding get_by_name_or_alias
resolve_canonical_name l name_or_alias = name_of_attribute (get_by_name_or_alias l name_or_alias)
