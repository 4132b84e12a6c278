-- ===== src/Sql/Filters/Total.antt =====
-- Which user filters make a condition, and that the simplification of filters keeps that.
use klldap.Base.{
  ◌≡◌, refl, sym, ap, ◌∙◌, Bool, ◌&&◌, Option, none, some, List, [], ◌∷◌, all, if◌then◌else◌, ok,
  err, collect, map_ok, ok_injective, ◌>>=◌, arith,
}
use klldap.Text.{Str}
use klldap.Handlers.{UserRequestFilter, UserFilters, user_list, user_vec}
use klldap.Ldap.Error.{LdapResult}
use klldap.Ldap.Simplify.Laws.{total, simplify-meaning, total-eq-all, and_assoc, and_right}
use klldap.Ldap.Filters.Users.{
  is_true, is_false, and_parts, or_parts, simplify_and, simplify_or, negate,
}
use klldap.Sql.Values.{Codec}
use klldap.Sql.Filters.{Cond, Conds, map_some, cons_some, repeated}
use klldap.Sql.Filters.Users.{user_leaf_expr, get_user_filter_expr, get_user_filter_exprs}

abbrev pub is_made {ℓ} : {A : Type ℓ} → Option A → Bool
is_made none = Bool.false
is_made (some a) = Bool.true

module _ {D : Type 0} (codec : Codec D) (to_lowercase : Str → Str) where
  -- Every part makes a condition.
  abbrev mutual
    pub is_supported : UserRequestFilter D → Bool
    is_supported (UserRequestFilter.and fs) = all_supported fs
    is_supported (UserRequestFilter.or fs) = all_supported fs
    is_supported (UserRequestFilter.not f) = is_supported f
    is_supported leaf = is_made (user_leaf_expr codec to_lowercase leaf)

    pub all_supported : UserFilters D → Bool
    all_supported UserFilters.nil = Bool.true
    all_supported (UserFilters.cons f fs) = is_supported f && all_supported fs

  repeated-made :
      (condition : Conds → Cond) (b : Bool) (o : Option Conds)
      → is_made o ≡ Bool.true
      → is_made (repeated condition b o) ≡ Bool.true
  repeated-made condition b none h = cc h
  repeated-made condition b (some Conds.nil) h = refl
  repeated-made condition b (some (Conds.cons c cs)) h = refl

  map_some-made :
      (f : Cond → Cond) (o : Option Cond)
      → is_made o ≡ Bool.true
      → is_made (map_some f o) ≡ Bool.true
  map_some-made f none h = cc h
  map_some-made f (some c) h = refl

  cons_some-made :
      (o : Option Cond) (os : Option Conds)
      → is_made o ≡ Bool.true
      → is_made os ≡ Bool.true
      → is_made (cons_some o os) ≡ Bool.true
  cons_some-made none os h k = cc h
  cons_some-made (some c) none h k = cc k
  cons_some-made (some c) (some cs) h k = refl

  mutual
    unfolding get_user_filter_expr

    pub get_user_filter_expr-made :
        (f : UserRequestFilter D)
        → is_supported f ≡ Bool.true
        → is_made (get_user_filter_expr codec to_lowercase f) ≡ Bool.true
    get_user_filter_expr-made (UserRequestFilter.and fs) h =
        repeated-made Cond.all Bool.true _ (get_user_filter_exprs-made fs h)
    get_user_filter_expr-made (UserRequestFilter.or fs) h =
        repeated-made Cond.any Bool.false _ (get_user_filter_exprs-made fs h)
    get_user_filter_expr-made (UserRequestFilter.not f) h =
        map_some-made Cond.not _ (get_user_filter_expr-made f h)
    get_user_filter_expr-made leaf h = h

    get_user_filter_exprs-made :
        (fs : UserFilters D)
        → all_supported fs ≡ Bool.true
        → is_made (get_user_filter_exprs codec to_lowercase fs) ≡ Bool.true
    get_user_filter_exprs-made UserFilters.nil h = refl
    get_user_filter_exprs-made (UserFilters.cons f fs) h =
        cons_some-made _ _ (get_user_filter_expr-made f (ground arith))
          (get_user_filter_exprs-made fs (ground arith))

  all_supported-vec :
      (fs : List (UserRequestFilter D)) → all_supported (user_vec fs) ≡ all is_supported fs
  all_supported-vec [] = refl
  all_supported-vec (f ∷ fs) = rw (all_supported-vec fs)

  all_supported-list : (fs : UserFilters D) → all is_supported (user_list fs) ≡ all_supported fs
  all_supported-list UserFilters.nil = refl
  all_supported-list (UserFilters.cons f fs) = rw (all_supported-list fs)

  is_true-supported : (f : UserRequestFilter D) → is_true f ≡ Bool.true → is_supported f ≡ Bool.true
  unfolding user_leaf_expr
  is_true-supported UserRequestFilter.true h = refl
  is_true-supported f h = cc

  is_false-supported :
      (f : UserRequestFilter D) → is_false f ≡ Bool.true → is_supported f ≡ Bool.true
  unfolding user_leaf_expr
  is_false-supported UserRequestFilter.false h = refl
  is_false-supported f h = cc

  and_parts-supported :
      (f : UserRequestFilter D) → total ◌&&◌ Bool.true is_supported (and_parts f) ≡ is_supported f
  and_parts-supported (UserRequestFilter.and fs) =
      total-eq-all is_supported (user_list fs) ∙ all_supported-list fs
  and_parts-supported f = and_right _

  or_parts-supported :
      (f : UserRequestFilter D) → total ◌&&◌ Bool.true is_supported (or_parts f) ≡ is_supported f
  or_parts-supported (UserRequestFilter.or fs) =
      total-eq-all is_supported (user_list fs) ∙ all_supported-list fs
  or_parts-supported f = and_right _

  pub negate-supported : (f : UserRequestFilter D) → is_supported (negate f) ≡ is_supported f
  unfolding user_leaf_expr
  negate-supported UserRequestFilter.true = refl
  negate-supported UserRequestFilter.false = refl
  negate-supported f = refl

  -- A result that is supported if there is one.
  abbrev pub IsSound : LdapResult (UserRequestFilter D) → Type 0
  IsSound r = map_ok is_supported r ≡ map_ok (λ f. Bool.true) r

  -- The values of the results are all true, and so is their conjunction.
  abbrev pub AllSound : List (LdapResult (UserRequestFilter D)) → Type 0
  AllSound rs =
      map_ok (total ◌&&◌ Bool.true is_supported) (collect rs)
      ≡ map_ok (λ fs. Bool.true) (collect rs)

  pub cons-AllSound :
      (r : LdapResult (UserRequestFilter D)) (rs : List (LdapResult (UserRequestFilter D)))
      → IsSound r
      → AllSound rs
      → AllSound (r ∷ rs)
  cons-AllSound (err e) rs h k = refl
  cons-AllSound (ok f) rs h k = step (collect rs) k
    where
      first : is_supported f ≡ Bool.true
      first = ok_injective refl h

      step :
          (r : LdapResult (List (UserRequestFilter D)))
          → map_ok (total ◌&&◌ Bool.true is_supported) r ≡ map_ok (λ fs. Bool.true) r
          → map_ok (total ◌&&◌ Bool.true is_supported) (r >>= λ fs. ok (f ∷ fs))
            ≡ map_ok (λ fs. Bool.true) (r >>= λ fs. ok (f ∷ fs))
      step (ok fs) k' = ap ok (rw (first, ok_injective refl k') refl)
      step (err e) k' = refl

  map_ok-IsSound :
      {B : Type 0} (s : LdapResult (UserRequestFilter D)) (r : LdapResult B)
      → map_ok is_supported s ≡ map_ok (λ b. Bool.true) r
      → IsSound s
  map_ok-IsSound (ok f) (ok b) h = h
  map_ok-IsSound (ok f) (err e) h = cc h
  map_ok-IsSound (err e) r h = refl

  pub simplify_and-IsSound :
      (rs : List (LdapResult (UserRequestFilter D))) → AllSound rs → IsSound (simplify_and rs)
  unfolding simplify_and user_leaf_expr
  simplify_and-IsSound rs h = map_ok-IsSound (simplify_and rs) (collect rs) (
      simplify-meaning ◌&&◌ Bool.true (λ b. refl) and_right and_assoc is_supported is_true and_parts
        UserRequestFilter.true (λ fs. UserRequestFilter.and (user_vec fs)) is_true-supported
        and_parts-supported refl (λ fs. all_supported-vec fs ∙ sym (total-eq-all is_supported fs))
        rs
      ∙ h)

  pub simplify_or-IsSound :
      (rs : List (LdapResult (UserRequestFilter D))) → AllSound rs → IsSound (simplify_or rs)
  unfolding simplify_or user_leaf_expr
  simplify_or-IsSound rs h = map_ok-IsSound (simplify_or rs) (collect rs) (
      simplify-meaning ◌&&◌ Bool.true (λ b. refl) and_right and_assoc is_supported is_false or_parts
        UserRequestFilter.false (λ fs. UserRequestFilter.or (user_vec fs)) is_false-supported
        or_parts-supported refl (λ fs. all_supported-vec fs ∙ sym (total-eq-all is_supported fs)) rs
      ∙ h)

  pub if-IsSound :
      (b : Bool) (x y : LdapResult (UserRequestFilter D))
      → IsSound x
      → IsSound y
      → IsSound (if b then x else y)
  if-IsSound Bool.true x y h k = h
  if-IsSound Bool.false x y h k = k

  pub ok-IsSound : (f : UserRequestFilter D) → is_supported f ≡ Bool.true → IsSound (ok f)
  ok-IsSound f h = ap ok h

  pub if-supported :
      (b : Bool) (x y : UserRequestFilter D)
      → is_supported x ≡ Bool.true
      → is_supported y ≡ Bool.true
      → is_supported (if b then x else y) ≡ Bool.true
  if-supported Bool.true x y h k = h
  if-supported Bool.false x y h k = k
