-- ===== src/Access/Laws.antt =====
-- The permission of a user, and what the restricted lister may show.
use mathlib.Core.List.{Permᴰ, Perm}
use mathlib.Core.Logic.{∥∥₁_elim}
use mathlib.Core.Bool
use klldap.Base.{
  ℕ, ◌≡◌, refl, sym, ap, ◌∙◌, Bool, ◌&&◌, ◌||◌, Option, none, some, List, any, Bool-cases, inl, inr,
  arith, if◌then◌else◌, String,
}
use klldap.Text.{Str, codes}
use klldap.Auth.{
  UserId, ValidationResults, permission_eq, is_admin, can_read_all, can_read, can_write,
}
use klldap.Domain.{GroupName, group_name_eq}
use klldap.Handlers.{UserRequestFilter, GroupRequestFilter}
use klldap.Handlers.Meaning.{user_meaning, group_meaning}
use klldap.Access.{
  get_admin_handler, get_readonly_handler, get_writeable_handler, get_readable_handler, is_in_group,
  get_permissions_from_groups, get_user_restricted_lister_handler, list_users, list_groups,
  restrict_users, restrict_groups,
}

any-Permᴰ : {A : Type 0} (p : A → Bool) {xs ys : List A} → Permᴰ xs ys → any p xs ≡ any p ys
any-Permᴰ p Permᴰ.nil = refl
any-Permᴰ p (Permᴰ.cons e d) = cc (any-Permᴰ p d, e)
any-Permᴰ p (Permᴰ.swap {a} {b} {a'} {b'} {l} e e') =
    let here : p a ≡ p b' = ap p e in
    let there : p b ≡ p a' = ap p e' in ground (arith, here, there)
any-Permᴰ p (Permᴰ.trans d d') = any-Permᴰ p d ∙ any-Permᴰ p d'

any-Perm : {A : Type 0} (p : A → Bool) {xs ys : List A} → Perm xs ys → any p xs ≡ any p ys
any-Perm p {xs} {ys} perm = ∥∥₁_elim perm (Bool.Bool-set (any p xs) (any p ys)) (any-Permᴰ p)

-- The groups of a user are a hash set: the order in which it is walked does not change the
-- permissions.
pub get_permissions_from_groups-Perm :
    (to_lowercase : ℕ → Str) (u : UserId) (groups groups' : List GroupName)
    → Perm groups groups'
    → get_permissions_from_groups to_lowercase u groups
      ≡ get_permissions_from_groups to_lowercase u groups'
unfolding get_permissions_from_groups
get_permissions_from_groups-Perm to_lowercase u groups groups' perm =
    let same : (name : String)
        → is_in_group to_lowercase name groups ≡ is_in_group to_lowercase name groups' =
      λ name. any-Perm (λ g. group_name_eq to_lowercase g (record { text = codes name })) perm in
    rw (same "lldap_admin", same "lldap_password_manager", same "lldap_strict_readonly")

-- Who is in `lldap_admin` is an administrator whatever the other groups are, and nobody else is; and
-- all users are read exactly by the members of one of the three groups.
pub get_permissions_from_groups-rights :
    (to_lowercase : ℕ → Str) (u : UserId) (groups : List GroupName)
    → (is_admin (get_permissions_from_groups to_lowercase u groups)
        ≡ is_in_group to_lowercase "lldap_admin" groups)
      × (can_read_all (get_permissions_from_groups to_lowercase u groups) ≡ (
          is_in_group to_lowercase "lldap_admin" groups
          || is_in_group to_lowercase "lldap_password_manager" groups
          || is_in_group to_lowercase "lldap_strict_readonly" groups))
unfolding get_permissions_from_groups is_admin can_read_all permission_eq
get_permissions_from_groups-rights to_lowercase u groups = (ground arith, ground arith)

-- What an optional filter means: none lets everyone through.
abbrev pub allows_user :
    {D : Type 0} → (UserRequestFilter D → Bool) → Option (UserRequestFilter D) → Bool
allows_user holds none = Bool.true
allows_user holds (some f) = user_meaning holds f

abbrev pub allows_group :
    {D : Type 0} → (GroupRequestFilter D → Bool) → Option (GroupRequestFilter D) → Bool
allows_group holds none = Bool.true
allows_group holds (some f) = group_meaning holds f

and_true : (b : Bool) → (b && Bool.true) ≡ b
and_true Bool.true = refl
and_true Bool.false = refl

restrict_users-meaning :
    {D : Type 0} (holds : UserRequestFilter D → Bool) (r : ValidationResults)
    (filters : Option (UserRequestFilter D))
    → allows_user holds (restrict_users filters (if can_read_all r then none else some r.user))
      ≡ (allows_user holds filters && (can_read_all r || holds (UserRequestFilter.user_id r.user)))
restrict_users-meaning holds r none = ground arith
restrict_users-meaning holds r (some f) = elim (Bool-cases (can_read_all r)) [
  | inl all_seen ↦ rw all_seen (sym (and_true (user_meaning holds f)))
  | inr own ↦
      rw own
        (ap (λ b. user_meaning holds f && b) (and_true (holds (UserRequestFilter.user_id r.user))))
]

restrict_groups-meaning :
    {D : Type 0} (holds : GroupRequestFilter D → Bool) (r : ValidationResults)
    (filters : Option (GroupRequestFilter D))
    → allows_group holds (restrict_groups filters (if can_read_all r then none else some r.user))
      ≡ (allows_group holds filters && (can_read_all r || holds (GroupRequestFilter.member r.user)))
restrict_groups-meaning holds r none = ground arith
restrict_groups-meaning holds r (some f) = elim (Bool-cases (can_read_all r)) [
  | inl all_seen ↦ rw all_seen (sym (and_true (group_meaning holds f)))
  | inr own ↦
      rw own
        (ap (λ b. group_meaning holds f && b) (and_true (holds (GroupRequestFilter.member r.user))))
]

-- The filter that reaches the handler inside lets a user through exactly if the given filter does and
-- the bound user may read all users or is that user.
pub list_users-meaning :
    {H D : Type 0} (handler : H) (r : ValidationResults) (holds : UserRequestFilter D → Bool)
    (filters : Option (UserRequestFilter D)) (get_groups : Bool)
    → list_users
        (get_user_restricted_lister_handler handler r)
        (λ h f g. allows_user holds f)
        filters
        get_groups
      ≡ (allows_user holds filters && (can_read_all r || holds (UserRequestFilter.user_id r.user)))
unfolding list_users get_user_restricted_lister_handler
list_users-meaning handler r holds filters get_groups = restrict_users-meaning holds r filters

-- The filter that reaches the handler inside lets a group through exactly if the given filter does and
-- the bound user may read all users or is a member of that group.
pub list_groups-meaning :
    {H D : Type 0} (handler : H) (r : ValidationResults) (holds : GroupRequestFilter D → Bool)
    (filters : Option (GroupRequestFilter D))
    → list_groups
        (get_user_restricted_lister_handler handler r)
        (λ h f. allows_group holds f)
        filters
      ≡ (allows_group holds filters && (can_read_all r || holds (GroupRequestFilter.member r.user)))
unfolding list_groups get_user_restricted_lister_handler
list_groups-meaning handler r holds filters = restrict_groups-meaning holds r filters

-- The handlers nest: who gets the administrator's handler gets the read-only one, and the writeable
-- one for every user; and who gets a user's writeable handler gets the readable one.
pub handlers_nest :
    {H : Type 0} (handler : H) (r : ValidationResults) (u : UserId)
    → (get_admin_handler handler r ≡ some handler → get_readonly_handler handler r ≡ some handler)
      × (get_admin_handler handler r ≡ some handler
          → get_writeable_handler handler r u ≡ some handler)
      × (get_writeable_handler handler r u ≡ some handler
          → get_readable_handler handler r u ≡ some handler)
unfolding get_admin_handler get_readonly_handler get_writeable_handler get_readable_handler is_admin
    can_read_all can_read can_write
handlers_nest handler r u = (λ h. ground arith, λ h. ground arith, λ h. ground arith)
