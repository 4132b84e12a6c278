-- ===== src/Sql/Filters/Users.antt =====
-- `get_user_filter_expr`.
use klldap.Base.{Bool, Option, none, some}
use klldap.Text.{Str}
use klldap.Domain.{UserColumn}
use klldap.Handlers.{UserRequestFilter, UserFilters, to_sql_filter}
use klldap.Sql.Values.{Codec, attribute_value_to_db_bytes}
use klldap.Sql.Filters.{
  Test, equals, at_least, at_most, like, lower_like, Expr, Cond, constant, expr, Conds, map_some,
  cons_some, repeated,
}

-- `to_lowercase` stands for `str::to_lowercase` of the standard library.
module _ {D : Type 0} (c : Codec D) (to_lowercase : Str → Str) where
  abbrev expr_of : Expr → Option Cond
  expr_of e = some (expr e)

  unfoldable pub user_equality : UserColumn → Str → Option Cond
  user_equality UserColumn.user_id value = none
  user_equality UserColumn.email value =
      expr_of (Expr.user_column UserColumn.lowercase_email (equals (to_lowercase value)))
  user_equality column value = expr_of (Expr.user_column column (equals value))

  abbrev pub is_date_column : UserColumn → Bool
  is_date_column UserColumn.creation_date = Bool.true
  is_date_column UserColumn.modified_date = Bool.true
  is_date_column UserColumn.password_modified_date = Bool.true
  is_date_column column = Bool.false

  abbrev on_date : Bool → UserColumn → Test → Option Cond
  on_date Bool.true column test = expr_of (Expr.user_column column test)
  on_date Bool.false column test = none

  -- A filter with no connective.
  unfoldable pub user_leaf_expr : UserRequestFilter D → Option Cond
  user_leaf_expr UserRequestFilter.true = some (constant Bool.true)
  user_leaf_expr UserRequestFilter.false = some (constant Bool.false)
  user_leaf_expr (UserRequestFilter.user_id user_id) = expr_of (Expr.user_id_is user_id)
  user_leaf_expr (UserRequestFilter.equality column value) = user_equality column value
  user_leaf_expr (UserRequestFilter.attribute_equality column value) =
      expr_of (Expr.in_user_attributes column (some (equals (attribute_value_to_db_bytes c value))))
  user_leaf_expr (UserRequestFilter.member_of group) =
      expr_of (Expr.member_of_name (to_lowercase group.text))
  user_leaf_expr (UserRequestFilter.member_of_id group_id) = expr_of (Expr.member_of_id group_id)
  user_leaf_expr (UserRequestFilter.user_id_sub_string filter) =
      expr_of (Expr.user_column UserColumn.user_id (like (to_sql_filter filter)))
  user_leaf_expr (UserRequestFilter.sub_string col filter) =
      expr_of (Expr.user_column col (lower_like (to_sql_filter filter)))
  user_leaf_expr (UserRequestFilter.custom_attribute_present name) =
      expr_of (Expr.in_user_attributes name none)
  user_leaf_expr (UserRequestFilter.greater_or_equal column value) =
      on_date (is_date_column column) column (at_least value)
  user_leaf_expr (UserRequestFilter.less_or_equal column value) =
      on_date (is_date_column column) column (at_most value)
  user_leaf_expr (UserRequestFilter.attribute_greater_or_equal name value) =
      expr_of (Expr.in_group_attributes name (some (at_least value)))
  user_leaf_expr (UserRequestFilter.attribute_less_or_equal name value) =
      expr_of (Expr.in_group_attributes name (some (at_most value)))
  user_leaf_expr (UserRequestFilter.attribute_sub_string name filter) =
      expr_of (Expr.in_user_attributes name (some (lower_like (to_sql_filter filter))))
  -- The connectives, which do not come here.
  user_leaf_expr (UserRequestFilter.and fs) = none
  user_leaf_expr (UserRequestFilter.or fs) = none
  user_leaf_expr (UserRequestFilter.not f) = none

  unfoldable mutual
    pub get_user_filter_expr : UserRequestFilter D → Option Cond
    get_user_filter_expr (UserRequestFilter.and fs) =
        repeated Cond.all Bool.true (get_user_filter_exprs fs)
    get_user_filter_expr (UserRequestFilter.or fs) =
        repeated Cond.any Bool.false (get_user_filter_exprs fs)
    get_user_filter_expr (UserRequestFilter.not f) = map_some Cond.not (get_user_filter_expr f)
    get_user_filter_expr leaf = user_leaf_expr leaf

    pub get_user_filter_exprs : UserFilters D → Option Conds
    get_user_filter_exprs UserFilters.nil = some Conds.nil
    get_user_filter_exprs (UserFilters.cons f fs) =
        cons_some (get_user_filter_expr f) (get_user_filter_exprs fs)
