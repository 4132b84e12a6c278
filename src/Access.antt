-- ===== src/Access.antt =====
-- crates/access-control/src/lib.rs: which handler a bound user gets, and the restricted lister.
-- `H` stands for the handler inside, which is lent out or not.
pub mod Laws
pub mod Visible
pub mod Tests
use klldap.Base.{
  ℕ, String, Bool, true, false, Option, none, some, List, [], ◌∷◌, any, retain, if◌then◌else◌,
  Result, ok, err, ◌>>=◌, map,
}
use klldap.Text.{Str, codes}
use klldap.Auth.{UserId, Permission, ValidationResults, is_admin, can_read_all, can_read, can_write}
use klldap.Schema.{AttributeSchema, AttributeList, Schema}
use klldap.Domain.{GroupName, GroupDetails, DomainError, group_name_eq}
use klldap.Handlers.{UserRequestFilter, UserFilters, GroupRequestFilter, GroupFilters}

-- `bool::then_some`.
abbrev pub then_some : {H : Type 0} → Bool → H → Option H
then_some true h = some h
then_some false h = none

module _ {H : Type 0} (handler : H) where
  unfoldable pub get_admin_handler : ValidationResults → Option H
  get_admin_handler r = then_some (is_admin r) handler

  unfoldable pub get_readonly_handler : ValidationResults → Option H
  get_readonly_handler r = then_some (can_read_all r) handler

  unfoldable pub get_writeable_handler : ValidationResults → UserId → Option H
  get_writeable_handler r user_id = then_some (can_write r user_id) handler

  unfoldable pub get_readable_handler : ValidationResults → UserId → Option H
  get_readable_handler r user_id = then_some (can_read r user_id) handler

-- `to_lowercase` stands for `char::to_lowercase` of the standard library, which the comparison of
-- group names uses.
module _ (to_lowercase : ℕ → Str) where
  abbrev pub is_in_group : String → List GroupName → Bool
  is_in_group name groups =
      any (λ g. group_name_eq to_lowercase g (record { text = codes name })) groups

  unfoldable pub get_permissions_from_groups : UserId → List GroupName → ValidationResults
  get_permissions_from_groups user_id groups = record {
    user = user_id;
    permission =
        if is_in_group "lldap_admin" groups
        then Permission.admin
        else if is_in_group "lldap_password_manager" groups
        then Permission.password_manager
        else if is_in_group "lldap_strict_readonly" groups
        then Permission.readonly
        else Permission.regular;
  }

  abbrev group_names : {D : Type 0} → List (GroupDetails D) → List GroupName
  group_names groups = map (λ g. g.display_name) groups

  -- The handler inside answers `get_user_groups`.
  unfoldable pub get_permissions_for_user :
      {D : Type 0}
      → (UserId → Result DomainError (List (GroupDetails D)))
      → UserId
      → Result DomainError ValidationResults
  get_permissions_for_user get_user_groups user_id = do
    user_groups ← get_user_groups user_id
    ok (get_permissions_from_groups user_id (group_names user_groups))

-- `UserRestrictedListerBackendHandler`.
pub record UserRestrictedLister (H : Type 0) : Type 0 where
  pub handler : H
  pub user_filter : Option UserId

unfoldable pub get_user_restricted_lister_handler :
    {H : Type 0} → H → ValidationResults → UserRestrictedLister H
get_user_restricted_lister_handler handler r = record {
  handler = handler;
  user_filter = if can_read_all r then none else some r.user;
}

abbrev pub visible : AttributeList → AttributeList
visible l = record { attributes = retain (λ a. a.is_visible) l.attributes }

abbrev pub filter_schema : {P : Type 0} → Option UserId → Schema P → Schema P
filter_schema none schema = schema
filter_schema (some user) schema = record {
  user_attributes = visible schema.user_attributes;
  group_attributes = visible schema.group_attributes;
  system_attributes = schema.system_attributes;
  posix_settings = schema.posix_settings;
  extra_user_object_classes = schema.extra_user_object_classes;
  extra_group_object_classes = schema.extra_group_object_classes;
}

-- `get_schema` of the restricted lister, given the answer of the handler inside.
unfoldable pub get_schema :
    {H P : Type 0}
    → UserRestrictedLister H
    → (H → Result DomainError (Schema P))
    → Result DomainError (Schema P)
get_schema lister inner_get_schema = do
  public_schema ← inner_get_schema lister.handler
  ok (filter_schema lister.user_filter public_schema)

-- The match on both filters in `list_users`, and in `list_groups`.
abbrev pub restrict_users :
    {D : Type 0} → Option (UserRequestFilter D) → Option UserId → Option (UserRequestFilter D)
restrict_users none none = none
restrict_users none (some u) = some (UserRequestFilter.user_id u)
restrict_users (some f) none = some f
restrict_users (some f) (some u) = some (
    UserRequestFilter.and
      (UserFilters.cons f (UserFilters.cons (UserRequestFilter.user_id u) UserFilters.nil)))

unfoldable pub list_users :
    {H D A : Type 0}
    → UserRestrictedLister H
    → (H → Option (UserRequestFilter D) → Bool → A)
    → Option (UserRequestFilter D)
    → Bool
    → A
list_users lister inner_list_users filters get_groups =
    inner_list_users lister.handler (restrict_users filters lister.user_filter) get_groups

abbrev pub restrict_groups :
    {D : Type 0} → Option (GroupRequestFilter D) → Option UserId → Option (GroupRequestFilter D)
restrict_groups none none = none
restrict_groups none (some u) = some (GroupRequestFilter.member u)
restrict_groups (some f) none = some f
restrict_groups (some f) (some u) = some (
    GroupRequestFilter.and
      (GroupFilters.cons f (GroupFilters.cons (GroupRequestFilter.member u) GroupFilters.nil)))

unfoldable pub list_groups :
    {H D A : Type 0}
    → UserRestrictedLister H
    → (H → Option (GroupRequestFilter D) → A)
    → Option (GroupRequestFilter D)
    → A
list_groups lister inner_list_groups filters =
    inner_list_groups lister.handler (restrict_groups filters lister.user_filter)
