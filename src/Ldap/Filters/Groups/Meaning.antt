-- ===== src/Ldap/Filters/Groups/Meaning.antt =====
-- The converted group filter means what the LDAP filter means.
use mathlib.Core.Bool
use klldap.Base.{
  Bool, ◌&&◌, ◌||◌, ◌≡◌, refl, sym, ap, ◌∙◌, List, [], ◌∷◌, map, all, any, ok, err, collect, map_ok,
  fun_ext,
}
use klldap.Text.{Str}
use klldap.Domain.{ℤ}
use klldap.Base.{Option}
use klldap.Handlers.{GroupRequestFilter, group_list, group_vec}
use klldap.Handlers.Meaning.{
  group_meaning, all_groups-vec, any_group-vec, all_groups-list, any_group-list,
}
use klldap.Ldap.Error.{LdapResult}
use klldap.Ldap.Filter.{LdapFilter, LdapFilters}
use klldap.Ldap.Simplify.Laws.{
  total, simplify-meaning, total-collect, total-eq-all, total-eq-any, and_assoc, or_assoc,
  and_right, or_right,
}
use klldap.Ldap.Filters.{Context}
use klldap.Ldap.Filters.Groups.{
  is_true, is_false, and_parts, or_parts, simplify_and, simplify_or, negate, convert_group_leaf,
  convert_group_filter, convert_group_filters,
}

module _ {D : Type 0} (holds : GroupRequestFilter D → Bool) where
  abbrev meaning : GroupRequestFilter D → Bool
  meaning = group_meaning holds

  is_true-meaning : (f : GroupRequestFilter D) → is_true f ≡ Bool.true → meaning f ≡ Bool.true
  is_true-meaning GroupRequestFilter.true h = refl
  is_true-meaning f h = cc

  is_false-meaning : (f : GroupRequestFilter D) → is_false f ≡ Bool.true → meaning f ≡ Bool.false
  is_false-meaning GroupRequestFilter.false h = refl
  is_false-meaning f h = cc

  and_parts-meaning :
      (f : GroupRequestFilter D) → total ◌&&◌ Bool.true meaning (and_parts f) ≡ meaning f
  and_parts-meaning (GroupRequestFilter.and fs) =
      total-eq-all meaning (group_list fs) ∙ all_groups-list holds fs
  and_parts-meaning f = and_right _

  or_parts-meaning :
      (f : GroupRequestFilter D) → total ◌||◌ Bool.false meaning (or_parts f) ≡ meaning f
  or_parts-meaning (GroupRequestFilter.or fs) =
      total-eq-any meaning (group_list fs) ∙ any_group-list holds fs
  or_parts-meaning f = or_right _

  negate-meaning : (f : GroupRequestFilter D) → meaning (negate f) ≡ Bool.not (meaning f)
  negate-meaning GroupRequestFilter.true = refl
  negate-meaning GroupRequestFilter.false = refl
  negate-meaning f = refl

  simplify_and-meaning :
      (rs : List (LdapResult (GroupRequestFilter D)))
      → map_ok meaning (simplify_and rs) ≡ map_ok (all (λ b. b)) (collect (map (map_ok meaning) rs))
  unfolding simplify_and
  simplify_and-meaning rs =
      simplify-meaning ◌&&◌ Bool.true (λ b. refl) and_right and_assoc meaning is_true and_parts
        GroupRequestFilter.true (λ fs. GroupRequestFilter.and (group_vec fs)) is_true-meaning
        and_parts-meaning refl (λ fs. all_groups-vec holds fs ∙ sym (total-eq-all meaning fs)) rs
      ∙ total-collect ◌&&◌ Bool.true meaning rs
      ∙ ap (λ g. map_ok g (collect (map (map_ok meaning) rs))) (fun_ext (total-eq-all (λ b. b)))

  simplify_or-meaning :
      (rs : List (LdapResult (GroupRequestFilter D)))
      → map_ok meaning (simplify_or rs) ≡ map_ok (any (λ b. b)) (collect (map (map_ok meaning) rs))
  unfolding simplify_or
  simplify_or-meaning rs =
      simplify-meaning ◌||◌ Bool.false (λ b. refl) or_right or_assoc meaning is_false or_parts
        GroupRequestFilter.false (λ fs. GroupRequestFilter.or (group_vec fs)) is_false-meaning
        or_parts-meaning refl (λ fs. any_group-vec holds fs ∙ sym (total-eq-any meaning fs)) rs
      ∙ total-collect ◌||◌ Bool.false meaning rs
      ∙ ap (λ g. map_ok g (collect (map (map_ok meaning) rs))) (fun_ext (total-eq-any (λ b. b)))

  module _ {P : Type 0} (c : Context D P) (parse_i32 : Str → Option ℤ) where
    -- The meaning of an LDAP filter by its connectives, over the converted leaves; an error is that of
    -- the first leaf that has one.
    abbrev mutual
      pub ldap_group_meaning : LdapFilter → LdapResult Bool
      ldap_group_meaning (LdapFilter.and fs) =
          map_ok (all (λ b. b)) (collect (ldap_group_meanings fs))
      ldap_group_meaning (LdapFilter.or fs) =
          map_ok (any (λ b. b)) (collect (ldap_group_meanings fs))
      ldap_group_meaning (LdapFilter.not f) = map_ok Bool.not (ldap_group_meaning f)
      ldap_group_meaning leaf = map_ok meaning (convert_group_leaf c parse_i32 leaf)

      pub ldap_group_meanings : LdapFilters → List (LdapResult Bool)
      ldap_group_meanings LdapFilters.nil = []
      ldap_group_meanings (LdapFilters.cons f fs) = ldap_group_meaning f ∷ ldap_group_meanings fs

    negate_result :
        (r : LdapResult (GroupRequestFilter D))
        → map_ok meaning (map_ok negate r) ≡ map_ok Bool.not (map_ok meaning r)
    negate_result (ok f) = ap ok (negate-meaning f)
    negate_result (err e) = refl

    mutual
      unfolding convert_group_filter

      convert_meaning :
          (f : LdapFilter)
          → map_ok meaning (convert_group_filter c parse_i32 f) ≡ ldap_group_meaning f
      convert_meaning (LdapFilter.and fs) =
          simplify_and-meaning (convert_group_filters c parse_i32 fs)
          ∙ ap (λ rs. map_ok (all (λ b. b)) (collect rs)) (converts_meaning fs)
      convert_meaning (LdapFilter.or fs) =
          simplify_or-meaning (convert_group_filters c parse_i32 fs)
          ∙ ap (λ rs. map_ok (any (λ b. b)) (collect rs)) (converts_meaning fs)
      convert_meaning (LdapFilter.not f) =
          negate_result (convert_group_filter c parse_i32 f)
          ∙ ap (map_ok Bool.not) (convert_meaning f)
      convert_meaning leaf = refl

      converts_meaning :
          (fs : LdapFilters)
          → map (map_ok meaning) (convert_group_filters c parse_i32 fs) ≡ ldap_group_meanings fs
      converts_meaning LdapFilters.nil = refl
      converts_meaning (LdapFilters.cons f fs) = cc (convert_meaning f, converts_meaning fs)

-- For every truth of the leaves the converted filter means what the connectives of the LDAP filter
-- say, although neutral parts are dropped and nested connectives are spliced; and the conversion fails
-- exactly when a leaf fails to convert, with the error of the first such leaf.
pub convert_group_filter-meaning :
    {D P : Type 0} (c : Context D P) (parse_i32 : Str → Option ℤ)
    (holds : GroupRequestFilter D → Bool) (f : LdapFilter)
    → map_ok (group_meaning holds) (convert_group_filter c parse_i32 f)
      ≡ ldap_group_meaning holds c parse_i32 f
convert_group_filter-meaning c parse_i32 holds f = convert_meaning holds c parse_i32 f
