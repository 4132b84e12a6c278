-- ===== src/Ldap/Attributes.antt =====
-- crates/ldap/src/attributes.rs: the unit that the attributes of a user or a group name.
pub mod Values
pub mod Entry
pub mod Panics
pub mod Laws
pub mod Tests
use klldap.Base.{Option, none, some, List, [], ◌∷◌, find?}
use klldap.Text.{Str, codes, eq_ignore_ascii_case}
use klldap.Domain.{AttributeValue, singleton, unbounded, Attribute, User, Group}
use klldap.Ldap.Ou.{default_primary_user_ou, default_primary_group_ou}

abbrev text_of_value : {D : Type 0} → Str → AttributeValue D → Str
text_of_value default (AttributeValue.string (singleton s)) = s
text_of_value default (AttributeValue.string (unbounded (s ∷ list))) = s
text_of_value default (AttributeValue.string (unbounded [])) = default
text_of_value default (AttributeValue.integer v) = default
text_of_value default (AttributeValue.avatar v) = default
text_of_value default (AttributeValue.date_time v) = default

abbrev text_of_attribute : {D : Type 0} → Str → Option (Attribute D) → Str
text_of_attribute default none = default
text_of_attribute default (some a) = text_of_value default a.value

unfoldable pub get_ou_from_attributes : {D : Type 0} → List (Attribute D) → Str → Str
get_ou_from_attributes attributes default =
    text_of_attribute default
      (find? (λ a. eq_ignore_ascii_case a.name.text (codes "ou")) attributes)

abbrev pub get_user_ou : {D : Type 0} → User D → Str
get_user_ou user = get_ou_from_attributes user.attributes default_primary_user_ou

abbrev pub get_group_ou : {D : Type 0} → Group D → Str
get_group_ou group = get_ou_from_attributes group.attributes default_primary_group_ou
