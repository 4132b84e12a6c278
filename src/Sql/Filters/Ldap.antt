-- ===== src/Sql/Filters/Ldap.antt =====
-- From a filter of LDAP to the condition of the database.
use klldap.Base.{◌≡◌, refl, sym, ap, ◌∙◌, Bool, Option, none, some, ok, err, map_ok, ok_injective}
use klldap.Text.{Str}
use klldap.Domain.{ℤ}
use klldap.Handlers.{UserRequestFilter, GroupRequestFilter}
use klldap.Handlers.Meaning.{user_meaning, group_meaning}
use klldap.Ldap.Error.{LdapResult}
use klldap.Ldap.Filter.{LdapFilter, LdapFilters}
use klldap.Ldap.Filters.{Context}
use klldap.Ldap.Filters.Users.{negate, convert_user_filter, convert_user_filters}
use klldap.Ldap.Filters.Users.Meaning.{ldap_user_meaning, convert_user_filter-meaning}
use klldap.Ldap.Filters.Groups.{convert_group_filter}
use klldap.Ldap.Filters.Groups.Meaning.{ldap_group_meaning, convert_group_filter-meaning}
use klldap.Sql.Values.{Codec}
use klldap.Sql.Filters.{Expr, Cond}
use klldap.Sql.Filters.Users.{get_user_filter_expr}
use klldap.Sql.Filters.Groups.{get_group_filter_expr}
use klldap.Sql.Filters.Total.{
  IsSound, AllSound, is_supported, is_made, cons-AllSound, negate-supported, simplify_and-IsSound,
  simplify_or-IsSound, get_user_filter_expr-made,
}
use klldap.Sql.Filters.Leaves.{convert_user_leaf-IsSound}
use klldap.Sql.Filters.Meaning.{
  eval, user_holds, eval-get_user_filter_expr, group_holds, eval-get_group_filter_expr,
}

made_some : {A : Type 0} (o : Option A) → is_made o ≡ Bool.true → (a : A) × (o ≡ some a)
made_some none h = cc h
made_some (some a) h = (a, refl)

module _ {D P : Type 0} (codec : Codec D) (to_lowercase : Str → Str) (c : Context D P) where
  negate-IsSound :
      (r : LdapResult (UserRequestFilter D))
      → IsSound codec to_lowercase r
      → IsSound codec to_lowercase (map_ok negate r)
  negate-IsSound (ok f) h = ap ok (negate-supported codec to_lowercase f ∙ ok_injective refl h)
  negate-IsSound (err e) h = refl

  mutual
    unfolding convert_user_filter

    convert_user_filter-IsSound :
        (f : LdapFilter) → IsSound codec to_lowercase (convert_user_filter c f)
    convert_user_filter-IsSound (LdapFilter.and fs) =
        simplify_and-IsSound codec to_lowercase (convert_user_filters c fs)
          (convert_user_filters-AllSound fs)
    convert_user_filter-IsSound (LdapFilter.or fs) =
        simplify_or-IsSound codec to_lowercase (convert_user_filters c fs)
          (convert_user_filters-AllSound fs)
    convert_user_filter-IsSound (LdapFilter.not f) =
        negate-IsSound (convert_user_filter c f) (convert_user_filter-IsSound f)
    convert_user_filter-IsSound leaf = convert_user_leaf-IsSound codec to_lowercase c leaf

    convert_user_filters-AllSound :
        (fs : LdapFilters) → AllSound codec to_lowercase (convert_user_filters c fs)
    convert_user_filters-AllSound LdapFilters.nil = refl
    convert_user_filters-AllSound (LdapFilters.cons f fs) =
        cons-AllSound codec to_lowercase (convert_user_filter c f) (convert_user_filters c fs)
          (convert_user_filter-IsSound f) (convert_user_filters-AllSound fs)

  supported_of :
      (r : LdapResult (UserRequestFilter D)) (g : UserRequestFilter D)
      → IsSound codec to_lowercase r
      → r ≡ ok g
      → is_supported codec to_lowercase g ≡ Bool.true
  supported_of (ok f) g h e =
      sym (ap (is_supported codec to_lowercase) (ok_injective refl e)) ∙ ok_injective refl h
  supported_of (err x) g h e = cc e

-- A user filter that LDAP accepts becomes a condition of the database: the back end never panics on it,
-- though it would on some filters. And a row passes the condition exactly if the connectives of the LDAP
-- filter say so, given which comparisons are true of the row.
pub get_user_filter_expr-convert_user_filter :
    {D P : Type 0} (codec : Codec D) (to_lowercase : Str → Str) (c : Context D P) (f : LdapFilter)
    (g : UserRequestFilter D)
    → convert_user_filter c f ≡ ok g
    → (condition : Cond) × (get_user_filter_expr codec to_lowercase g ≡ some condition)
      × ((row : Expr → Bool)
          → ldap_user_meaning (user_holds row codec to_lowercase) c f ≡ ok (eval row condition))
get_user_filter_expr-convert_user_filter codec to_lowercase c f g accepted =
    let (condition, made) = made_some (get_user_filter_expr codec to_lowercase g) (
      get_user_filter_expr-made codec to_lowercase g (
        supported_of codec to_lowercase c (convert_user_filter c f) g
          (convert_user_filter-IsSound codec to_lowercase c f) accepted)) in
    (
      condition,
      made,
      λ row.
          sym (convert_user_filter-meaning c (user_holds row codec to_lowercase) f)
          ∙ ap (map_ok (user_meaning (user_holds row codec to_lowercase))) accepted
          ∙ ap ok (sym (eval-get_user_filter_expr row codec to_lowercase g condition made)),
    )

-- A group filter that LDAP accepts becomes a condition that a row passes exactly if the connectives of
-- the LDAP filter say so, given which comparisons are true of the row.
pub get_group_filter_expr-convert_group_filter :
    {D P : Type 0} (codec : Codec D) (to_lowercase : Str → Str) (c : Context D P)
    (parse_i32 : Str → Option ℤ) (f : LdapFilter) (g : GroupRequestFilter D) (row : Expr → Bool)
    → convert_group_filter c parse_i32 f ≡ ok g
    → ldap_group_meaning (group_holds row codec to_lowercase) c parse_i32 f
      ≡ ok (eval row (get_group_filter_expr codec to_lowercase g))
get_group_filter_expr-convert_group_filter codec to_lowercase c parse_i32 f g row accepted =
    sym (convert_group_filter-meaning c parse_i32 (group_holds row codec to_lowercase) f)
    ∙ ap (map_ok (group_meaning (group_holds row codec to_lowercase))) accepted
    ∙ ap ok (sym (eval-get_group_filter_expr row codec to_lowercase g))
