-- ===== src/Access/Tests.antt =====
-- The permissions of concrete users, and the filters they may pass on.
use klldap.Base.{ok, ℕ, ◌≡◌, refl, Bool, ◌&&◌, ◌||◌, none, some, [], ◌∷◌}
use klldap.Text.{Str, codes, lower, str_eq}
use klldap.Auth.{UserId, Permission, ValidationResults, can_read_all}
use klldap.Schema.{AttributeType, AttributeSchema, Schema}
use klldap.Access.{get_schema}
use klldap.Access.Visible.{IsShown, get_schema-visible}
use klldap.Domain.{GroupName, compare_chars, compare_str_case_insensitive, group_name_eq}
use klldap.Handlers.{UserRequestFilter, GroupRequestFilter}
use klldap.Access.{
  get_permissions_from_groups, get_user_restricted_lister_handler, list_users, list_groups,
}
use klldap.Access.Laws.{allows_user, allows_group, list_users-meaning, list_groups-meaning}

abbrev bob : UserId
bob = record { text = codes "bob" }

abbrev regular_bob : ValidationResults
regular_bob = record { user = bob; permission = Permission.regular }

abbrev staff : GroupName
staff = record { text = codes "staff" }

abbrev admins : GroupName
admins = record { text = codes "LLDAP_admin" }

abbrev to_lowercase : ℕ → Str
to_lowercase c = lower c ∷ []

admins-in_any_case :
    get_permissions_from_groups to_lowercase bob (staff ∷ admins ∷ [])
    ≡ record { user = bob; permission = Permission.admin }
unfolding get_permissions_from_groups compare_chars compare_str_case_insensitive group_name_eq lower
admins-in_any_case = refl

abbrev is_alice : UserRequestFilter Unit → Bool
is_alice (UserRequestFilter.user_id u) = str_eq u.text (codes "alice")
is_alice other = Bool.true

abbrev has_alice : GroupRequestFilter Unit → Bool
has_alice (GroupRequestFilter.member u) = str_eq u.text (codes "alice")
has_alice other = Bool.true

list_users-meaning_example :
    list_users
      (get_user_restricted_lister_handler tt regular_bob)
      (λ h f g. allows_user is_alice f)
      (some UserRequestFilter.true)
      Bool.false
    ≡ (Bool.true && (can_read_all regular_bob || is_alice (UserRequestFilter.user_id bob)))
list_users-meaning_example =
    list_users-meaning tt regular_bob is_alice (some UserRequestFilter.true) Bool.false

list_groups-meaning_example :
    list_groups
      (get_user_restricted_lister_handler tt regular_bob)
      (λ h f. allows_group has_alice f)
      none
    ≡ (Bool.true && (can_read_all regular_bob || has_alice (GroupRequestFilter.member bob)))
list_groups-meaning_example = list_groups-meaning tt regular_bob has_alice none

abbrev attribute : Bool → AttributeSchema
attribute is_visible = record {
  name = codes "colour";
  aliases = [];
  attribute_type = AttributeType.string;
  is_list = Bool.false;
  is_visible = is_visible;
  is_editable = Bool.false;
  is_hardcoded = Bool.false;
  is_readonly = Bool.false;
}

abbrev schema : Schema Unit
schema = record {
  user_attributes = record { attributes = attribute Bool.true ∷ attribute Bool.false ∷ [] };
  group_attributes = record { attributes = [] };
  system_attributes = record { attributes = [] };
  posix_settings = tt;
  extra_user_object_classes = [];
  extra_group_object_classes = [];
}

get_schema-visible_example :
    IsShown
      (can_read_all regular_bob)
      (ok schema)
      (get_schema (get_user_restricted_lister_handler tt regular_bob) (λ h. ok schema))
get_schema-visible_example = get_schema-visible tt regular_bob (λ h. ok schema)
