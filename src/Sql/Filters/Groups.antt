-- ===== src/Sql/Filters/Groups.antt =====
-- `get_group_filter_expr`.
use klldap.Base.{Bool, none, some, if◌then◌else◌}
use klldap.Text.{Str, codes, str_eq, to_ascii_lowercase}
use klldap.Handlers.{GroupRequestFilter, GroupFilters, to_sql_filter}
use klldap.Sql.Values.{Codec, attribute_value_to_db_bytes}
use klldap.Sql.Filters.{
  Test, equals, at_least, at_most, lower_like, Expr, GroupDate, Cond, constant, expr, Conds,
}

-- `to_lowercase` stands for `str::to_lowercase` of the standard library.
module _ {D : Type 0} (c : Codec D) (to_lowercase : Str → Str) where
  -- The match on the column's name, which warns and lets no group pass for other names.
  unfoldable pub group_date_expr : Str → Test → Cond
  group_date_expr column test =
      let col = to_ascii_lowercase column in
      if str_eq col (codes "creationdate")
      then expr (Expr.group_date GroupDate.creation_date test)
      else if str_eq col (codes "modifieddate")
      then expr (Expr.group_date GroupDate.modified_date test)
      else constant Bool.false

  -- A filter with no connective.
  unfoldable pub group_leaf_expr : GroupRequestFilter D → Cond
  group_leaf_expr GroupRequestFilter.true = constant Bool.true
  group_leaf_expr GroupRequestFilter.false = constant Bool.false
  group_leaf_expr (GroupRequestFilter.display_name name) =
      expr (Expr.group_name (equals (to_lowercase name.text)))
  group_leaf_expr (GroupRequestFilter.group_id id) = expr (Expr.group_id_is id)
  group_leaf_expr (GroupRequestFilter.uuid uuid) = expr (Expr.group_uuid (equals uuid))
  group_leaf_expr (GroupRequestFilter.member user) = expr (Expr.has_member user)
  group_leaf_expr (GroupRequestFilter.display_name_sub_string filter) =
      expr (Expr.group_name (lower_like (to_sql_filter filter)))
  group_leaf_expr (GroupRequestFilter.attribute_equality name value) =
      expr (Expr.in_group_attributes name (some (equals (attribute_value_to_db_bytes c value))))
  group_leaf_expr (GroupRequestFilter.custom_attribute_present name) =
      expr (Expr.in_group_attributes name none)
  group_leaf_expr (GroupRequestFilter.greater_or_equal column value) =
      group_date_expr column (at_least value)
  group_leaf_expr (GroupRequestFilter.less_or_equal column value) =
      group_date_expr column (at_most value)
  group_leaf_expr (GroupRequestFilter.attribute_greater_or_equal name value) =
      expr (Expr.in_group_attributes name (some (at_least value)))
  group_leaf_expr (GroupRequestFilter.attribute_less_or_equal name value) =
      expr (Expr.in_group_attributes name (some (at_most value)))
  group_leaf_expr (GroupRequestFilter.attribute_sub_string name filter) =
      expr (Expr.in_group_attributes name (some (lower_like (to_sql_filter filter))))
  -- The connectives, which do not come here.
  group_leaf_expr (GroupRequestFilter.and fs) = constant Bool.false
  group_leaf_expr (GroupRequestFilter.or fs) = constant Bool.false
  group_leaf_expr (GroupRequestFilter.not f) = constant Bool.false

  -- `get_repeated_filter`: the default for no parts, and else the condition of all of them.
  abbrev pub repeated_groups : (Conds → Cond) → Bool → Conds → Cond
  repeated_groups condition default_value Conds.nil = constant default_value
  repeated_groups condition default_value (Conds.cons d ds) = condition (Conds.cons d ds)

  unfoldable mutual
    pub get_group_filter_expr : GroupRequestFilter D → Cond
    get_group_filter_expr (GroupRequestFilter.and fs) =
        repeated_groups Cond.all Bool.true (get_group_filter_exprs fs)
    get_group_filter_expr (GroupRequestFilter.or fs) =
        repeated_groups Cond.any Bool.false (get_group_filter_exprs fs)
    get_group_filter_expr (GroupRequestFilter.not f) = Cond.not (get_group_filter_expr f)
    get_group_filter_expr leaf = group_leaf_expr leaf

    pub get_group_filter_exprs : GroupFilters D → Conds
    get_group_filter_exprs GroupFilters.nil = Conds.nil
    get_group_filter_exprs (GroupFilters.cons f fs) =
        Conds.cons (get_group_filter_expr f) (get_group_filter_exprs fs)
