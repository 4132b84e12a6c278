-- ===== src/Sql/Filters/Meaning.antt =====
-- A row passes the condition exactly if it passes the filter. A row says which comparisons are true of
-- it; comparisons with a missing value, which SQL has neither true nor false, are not covered.
use mathlib.Core.Bool
use klldap.Base.{◌≡◌, refl, sym, ap, ◌∙◌, Bool, ◌&&◌, ◌||◌, Option, none, some}
use klldap.Text.{Str}
use klldap.Handlers.{UserRequestFilter, UserFilters, GroupRequestFilter, GroupFilters}
use klldap.Handlers.Meaning.{
  user_meaning, all_users, any_user, group_meaning, all_groups, any_group,
}
use klldap.Sql.Values.{Codec}
use klldap.Sql.Filters.{Expr, Cond, constant, expr, Conds, map_some, cons_some, repeated}
use klldap.Sql.Filters.Users.{user_leaf_expr, get_user_filter_expr, get_user_filter_exprs}
use klldap.Sql.Filters.Groups.{
  group_leaf_expr, repeated_groups, get_group_filter_expr, get_group_filter_exprs,
}

module _ (row : Expr → Bool) where
  abbrev mutual
    pub eval : Cond → Bool
    eval (constant b) = b
    eval (expr e) = row e
    eval (Cond.all cs) = eval_all cs
    eval (Cond.any cs) = eval_any cs
    eval (Cond.not c) = Bool.not (eval c)

    pub eval_all : Conds → Bool
    eval_all Conds.nil = Bool.true
    eval_all (Conds.cons c cs) = eval c && eval_all cs

    pub eval_any : Conds → Bool
    eval_any Conds.nil = Bool.false
    eval_any (Conds.cons c cs) = eval c || eval_any cs

  -- A condition that was not made passes no row.
  abbrev pub passes : Option Cond → Bool
  passes none = Bool.false
  passes (some c) = eval c

  repeated-all :
      (o : Option Conds) (c : Cond)
      → repeated Cond.all Bool.true o ≡ some c
      → (cs : Conds) × (o ≡ some cs) × (eval c ≡ eval_all cs)
  repeated-all none c h = cc h
  repeated-all (some Conds.nil) c h = (Conds.nil, refl, ap passes (sym h))
  repeated-all (some (Conds.cons d ds)) c h = (Conds.cons d ds, refl, ap passes (sym h))

  repeated-any :
      (o : Option Conds) (c : Cond)
      → repeated Cond.any Bool.false o ≡ some c
      → (cs : Conds) × (o ≡ some cs) × (eval c ≡ eval_any cs)
  repeated-any none c h = cc h
  repeated-any (some Conds.nil) c h = (Conds.nil, refl, ap passes (sym h))
  repeated-any (some (Conds.cons d ds)) c h = (Conds.cons d ds, refl, ap passes (sym h))

  map_some_not :
      (o : Option Cond) (c : Cond)
      → map_some Cond.not o ≡ some c
      → (d : Cond) × (o ≡ some d) × (eval c ≡ Bool.not (eval d))
  map_some_not none c h = cc h
  map_some_not (some d) c h = (d, refl, ap passes (sym h))

  cons_some_parts :
      (o : Option Cond) (os : Option Conds) (cs : Conds)
      → cons_some o os ≡ some cs
      → (d : Cond) × (ds : Conds) × (o ≡ some d) × (os ≡ some ds) × (cs ≡ Conds.cons d ds)
  cons_some_parts none os cs h = cc h
  cons_some_parts (some d) none cs h = cc h
  cons_some_parts (some d) (some ds) cs h = (d, ds, refl, refl, cc h)

  module _ {D : Type 0} (c : Codec D) (to_lowercase : Str → Str) where
    -- The truth of a filter with no connective.
    abbrev pub user_holds : UserRequestFilter D → Bool
    user_holds leaf = passes (user_leaf_expr c to_lowercase leaf)

    mutual
      unfolding get_user_filter_expr user_leaf_expr

      pub eval-get_user_filter_expr :
          (f : UserRequestFilter D) (d : Cond)
          → get_user_filter_expr c to_lowercase f ≡ some d
          → eval d ≡ user_meaning user_holds f
      eval-get_user_filter_expr (UserRequestFilter.and fs) d h =
          let (cs, made, same) = repeated-all (get_user_filter_exprs c to_lowercase fs) d h in
          same ∙ (eval-get_user_filter_exprs fs cs made).0
      eval-get_user_filter_expr (UserRequestFilter.or fs) d h =
          let (cs, made, same) = repeated-any (get_user_filter_exprs c to_lowercase fs) d h in
          same ∙ (eval-get_user_filter_exprs fs cs made).1
      eval-get_user_filter_expr (UserRequestFilter.not f) d h =
          let (e, made, same) = map_some_not (get_user_filter_expr c to_lowercase f) d h in
          same ∙ ap Bool.not (eval-get_user_filter_expr f e made)
      eval-get_user_filter_expr UserRequestFilter.true d h = ap passes (sym h)
      eval-get_user_filter_expr UserRequestFilter.false d h = ap passes (sym h)
      eval-get_user_filter_expr leaf d h = ap passes (sym h)

      eval-get_user_filter_exprs :
          (fs : UserFilters D) (ds : Conds)
          → get_user_filter_exprs c to_lowercase fs ≡ some ds
          → (eval_all ds ≡ all_users user_holds fs) × (eval_any ds ≡ any_user user_holds fs)
      eval-get_user_filter_exprs UserFilters.nil ds h =
          let same : ds ≡ Conds.nil = cc h in rw same (refl, refl)
      eval-get_user_filter_exprs (UserFilters.cons f fs) ds h =
          let (d, rest, first, others, same) =
            cons_some_parts (get_user_filter_expr c to_lowercase f)
              (get_user_filter_exprs c to_lowercase fs) ds h in
          let head = eval-get_user_filter_expr f d first in
          let tail = eval-get_user_filter_exprs fs rest others in
          rw (same, head, tail.0, tail.1) (refl, refl)

    -- The same for groups, where every filter makes a condition.
    abbrev pub group_holds : GroupRequestFilter D → Bool
    group_holds leaf = eval (group_leaf_expr c to_lowercase leaf)

    repeated_groups-all :
        (ds : Conds) → eval (repeated_groups c to_lowercase Cond.all Bool.true ds) ≡ eval_all ds
    repeated_groups-all Conds.nil = refl
    repeated_groups-all (Conds.cons d ds) = refl

    repeated_groups-any :
        (ds : Conds) → eval (repeated_groups c to_lowercase Cond.any Bool.false ds) ≡ eval_any ds
    repeated_groups-any Conds.nil = refl
    repeated_groups-any (Conds.cons d ds) = refl

    mutual
      unfolding get_group_filter_expr group_leaf_expr

      pub eval-get_group_filter_expr :
          (f : GroupRequestFilter D)
          → eval (get_group_filter_expr c to_lowercase f) ≡ group_meaning group_holds f
      eval-get_group_filter_expr (GroupRequestFilter.and fs) =
          repeated_groups-all (get_group_filter_exprs c to_lowercase fs)
          ∙ (eval-get_group_filter_exprs fs).0
      eval-get_group_filter_expr (GroupRequestFilter.or fs) =
          repeated_groups-any (get_group_filter_exprs c to_lowercase fs)
          ∙ (eval-get_group_filter_exprs fs).1
      eval-get_group_filter_expr (GroupRequestFilter.not f) =
          ap Bool.not (eval-get_group_filter_expr f)
      eval-get_group_filter_expr GroupRequestFilter.true = refl
      eval-get_group_filter_expr GroupRequestFilter.false = refl
      eval-get_group_filter_expr leaf = refl

      eval-get_group_filter_exprs :
          (fs : GroupFilters D)
          → (eval_all (get_group_filter_exprs c to_lowercase fs) ≡ all_groups group_holds fs)
            × (eval_any (get_group_filter_exprs c to_lowercase fs) ≡ any_group group_holds fs)
      eval-get_group_filter_exprs GroupFilters.nil = (refl, refl)
      eval-get_group_filter_exprs (GroupFilters.cons f fs) =
          let head = eval-get_group_filter_expr f in
          let tail = eval-get_group_filter_exprs fs in rw (head, tail.0, tail.1) (refl, refl)
