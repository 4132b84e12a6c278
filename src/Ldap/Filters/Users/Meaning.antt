-- ===== src/Ldap/Filters/Users/Meaning.antt =====
-- The converted user filter means what the LDAP filter means.
use mathlib.Core.Bool
use klldap.Base.{
  Bool, ◌&&◌, ◌||◌, ◌≡◌, refl, sym, ap, ◌∙◌, List, [], ◌∷◌, map, all, any, ok, err, collect, map_ok,
  fun_ext,
}
use klldap.Handlers.{UserRequestFilter, user_list, user_vec}
use klldap.Handlers.Meaning.{
  user_meaning, all_users-vec, any_user-vec, all_users-list, any_user-list,
}
use klldap.Ldap.Error.{LdapResult}
use klldap.Ldap.Filter.{LdapFilter, LdapFilters}
use klldap.Ldap.Simplify.Laws.{
  total, simplify-meaning, total-collect, total-eq-all, total-eq-any, and_assoc, or_assoc,
  and_right, or_right,
}
use klldap.Ldap.Filters.{Context}
use klldap.Ldap.Filters.Users.{
  is_true, is_false, and_parts, or_parts, simplify_and, simplify_or, negate, convert_user_leaf,
  convert_user_filter, convert_user_filters,
}

module _ {D : Type 0} (holds : UserRequestFilter D → Bool) where
  abbrev meaning : UserRequestFilter D → Bool
  meaning = user_meaning holds

  is_true-meaning : (f : UserRequestFilter D) → is_true f ≡ Bool.true → meaning f ≡ Bool.true
  is_true-meaning UserRequestFilter.true h = refl
  is_true-meaning f h = cc

  is_false-meaning : (f : UserRequestFilter D) → is_false f ≡ Bool.true → meaning f ≡ Bool.false
  is_false-meaning UserRequestFilter.false h = refl
  is_false-meaning f h = cc

  and_parts-meaning :
      (f : UserRequestFilter D) → total ◌&&◌ Bool.true meaning (and_parts f) ≡ meaning f
  and_parts-meaning (UserRequestFilter.and fs) =
      total-eq-all meaning (user_list fs) ∙ all_users-list holds fs
  and_parts-meaning f = and_right _

  or_parts-meaning :
      (f : UserRequestFilter D) → total ◌||◌ Bool.false meaning (or_parts f) ≡ meaning f
  or_parts-meaning (UserRequestFilter.or fs) =
      total-eq-any meaning (user_list fs) ∙ any_user-list holds fs
  or_parts-meaning f = or_right _

  negate-meaning : (f : UserRequestFilter D) → meaning (negate f) ≡ Bool.not (meaning f)
  negate-meaning UserRequestFilter.true = refl
  negate-meaning UserRequestFilter.false = refl
  negate-meaning f = refl

  simplify_and-meaning :
      (rs : List (LdapResult (UserRequestFilter D)))
      → map_ok meaning (simplify_and rs) ≡ map_ok (all (λ b. b)) (collect (map (map_ok meaning) rs))
  unfolding simplify_and
  simplify_and-meaning rs =
      simplify-meaning ◌&&◌ Bool.true (λ b. refl) and_right and_assoc meaning is_true and_parts
        UserRequestFilter.true (λ fs. UserRequestFilter.and (user_vec fs)) is_true-meaning
        and_parts-meaning refl (λ fs. all_users-vec holds fs ∙ sym (total-eq-all meaning fs)) rs
      ∙ total-collect ◌&&◌ Bool.true meaning rs
      ∙ ap (λ g. map_ok g (collect (map (map_ok meaning) rs))) (fun_ext (total-eq-all (λ b. b)))

  simplify_or-meaning :
      (rs : List (LdapResult (UserRequestFilter D)))
      → map_ok meaning (simplify_or rs) ≡ map_ok (any (λ b. b)) (collect (map (map_ok meaning) rs))
  unfolding simplify_or
  simplify_or-meaning rs =
      simplify-meaning ◌||◌ Bool.false (λ b. refl) or_right or_assoc meaning is_false or_parts
        UserRequestFilter.false (λ fs. UserRequestFilter.or (user_vec fs)) is_false-meaning
        or_parts-meaning refl (λ fs. any_user-vec holds fs ∙ sym (total-eq-any meaning fs)) rs
      ∙ total-collect ◌||◌ Bool.false meaning rs
      ∙ ap (λ g. map_ok g (collect (map (map_ok meaning) rs))) (fun_ext (total-eq-any (λ b. b)))

  module _ {P : Type 0} (c : Context D P) where
    -- The meaning of an LDAP filter by its connectives, over the converted leaves; an error is that of
    -- the first leaf that has one.
    abbrev mutual
      pub ldap_user_meaning : LdapFilter → LdapResult Bool
      ldap_user_meaning (LdapFilter.and fs) =
          map_ok (all (λ b. b)) (collect (ldap_user_meanings fs))
      ldap_user_meaning (LdapFilter.or fs) = map_ok (any (λ b. b)) (collect (ldap_user_meanings fs))
      ldap_user_meaning (LdapFilter.not f) = map_ok Bool.not (ldap_user_meaning f)
      ldap_user_meaning leaf = map_ok meaning (convert_user_leaf c leaf)

      pub ldap_user_meanings : LdapFilters → List (LdapResult Bool)
      ldap_user_meanings LdapFilters.nil = []
      ldap_user_meanings (LdapFilters.cons f fs) = ldap_user_meaning f ∷ ldap_user_meanings fs

    negate_result :
        (r : LdapResult (UserRequestFilter D))
        → map_ok meaning (map_ok negate r) ≡ map_ok Bool.not (map_ok meaning r)
    negate_result (ok f) = ap ok (negate-meaning f)
    negate_result (err e) = refl

    mutual
      unfolding convert_user_filter

      convert_meaning :
          (f : LdapFilter) → map_ok meaning (convert_user_filter c f) ≡ ldap_user_meaning f
      convert_meaning (LdapFilter.and fs) =
          simplify_and-meaning (convert_user_filters c fs)
          ∙ ap (λ rs. map_ok (all (λ b. b)) (collect rs)) (converts_meaning fs)
      convert_meaning (LdapFilter.or fs) =
          simplify_or-meaning (convert_user_filters c fs)
          ∙ ap (λ rs. map_ok (any (λ b. b)) (collect rs)) (converts_meaning fs)
      convert_meaning (LdapFilter.not f) =
          negate_result (convert_user_filter c f) ∙ ap (map_ok Bool.not) (convert_meaning f)
      convert_meaning leaf = refl

      converts_meaning :
          (fs : LdapFilters)
          → map (map_ok meaning) (convert_user_filters c fs) ≡ ldap_user_meanings fs
      converts_meaning LdapFilters.nil = refl
      converts_meaning (LdapFilters.cons f fs) = cc (convert_meaning f, converts_meaning fs)

-- For every truth of the leaves the converted filter means what the connectives of the LDAP filter
-- say, although neutral parts are dropped and nested connectives are spliced; and the conversion fails
-- exactly when a leaf fails to convert, with the error of the first such leaf.
pub convert_user_filter-meaning :
    {D P : Type 0} (c : Context D P) (holds : UserRequestFilter D → Bool) (f : LdapFilter)
    → map_ok (user_meaning holds) (convert_user_filter c f) ≡ ldap_user_meaning holds c f
convert_user_filter-meaning c holds f = convert_meaning holds c f
