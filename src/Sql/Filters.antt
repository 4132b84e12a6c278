-- ===== src/Sql/Filters.antt =====
-- The conditions that list requests run with: `get_user_filter_expr` of
-- crates/sql-backend-handler/src/sql_user_backend_handler.rs and `get_group_filter_expr` of
-- sql_group_backend_handler.rs. sea-orm's conditions are data here: an `Expr` says which comparison is
-- made, in which table, and a `Cond` is what `Cond::all`, `Cond::any` and `not` make of these.
pub mod Users
pub mod Groups
pub mod Total
pub mod Leaves
pub mod Meaning
pub mod Ldap
pub mod Tests
use klldap.Base.{ℕ, Bool, Option, none, some, List, [], ◌∷◌}
use klldap.Text.{Str}
use klldap.Auth.{UserId}
use klldap.Domain.{AttributeName, GroupId, UserColumn}

-- A comparison of a column with a text or with bytes.
pub data Test : Type 0 where
  equals at_least at_most like lower_like : List ℕ → Test

pub data GroupDate : Type 0 where
  creation_date modified_date : GroupDate

pub data Expr : Type 0 where
  user_id_is : UserId → Expr
  user_column : UserColumn → Test → Expr
  -- A row of the user's attributes, or of the group's, has the name and passes the test, if there is one.
  in_user_attributes in_group_attributes : AttributeName → Option Test → Expr
  -- The user is in a group of that lower-cased name, or with that identifier.
  member_of_name : Str → Expr
  member_of_id : GroupId → Expr
  group_name group_uuid : Test → Expr
  group_id_is : GroupId → Expr
  has_member : UserId → Expr
  group_date : GroupDate → Test → Expr

mutual
  pub data Cond : Type 0 where
    constant : Bool → Cond
    expr : Expr → Cond
    all any : Conds → Cond
    not : Cond → Cond

  pub data Conds : Type 0 where
    nil : Conds
    cons : Cond → Conds → Conds

-- `none` is a panic, which any part of a filter can bring about.
abbrev pub map_some : {A B : Type 0} → (A → B) → Option A → Option B
map_some f none = none
map_some f (some a) = some (f a)

abbrev pub cons_some : Option Cond → Option Conds → Option Conds
cons_some none rest = none
cons_some (some c) none = none
cons_some (some c) (some cs) = some (Conds.cons c cs)

-- `fold` over the parts, or the default for none.
abbrev pub repeated : (Conds → Cond) → Bool → Option Conds → Option Cond
repeated condition default_value none = none
repeated condition default_value (some nil) = some (constant default_value)
repeated condition default_value (some (cons c cs)) = some (condition (cons c cs))
