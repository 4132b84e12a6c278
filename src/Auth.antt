-- ===== src/Auth.antt =====
-- crates/auth/src/lib.rs (`types`) and crates/auth/src/access_control.rs: user names, permissions
-- and what a bound user may do.
pub mod Rights
pub mod Tests
use klldap.Base.{Bool, true, false, not, ◌&&◌, ◌||◌}
use klldap.Text.{Str, str_eq, to_ascii_lowercase}

-- A `CaseInsensitiveString` inside: the constructors `new` and `from` lower-case it.
pub record UserId : Type 0 where
  pub text : Str

unfoldable pub user_id : Str → UserId
user_id s = record { text = to_ascii_lowercase s }

-- The derived `==`.
unfoldable pub user_id_eq : UserId → UserId → Bool
user_id_eq a b = str_eq a.text b.text

pub data Permission : Type 0 where
  admin password_manager readonly regular : Permission

unfoldable pub permission_eq : Permission → Permission → Bool
permission_eq admin admin = true
permission_eq password_manager password_manager = true
permission_eq readonly readonly = true
permission_eq regular regular = true
permission_eq _ _ = false

pub record ValidationResults : Type 0 where
  pub user : UserId
  pub permission : Permission

unfoldable pub is_admin : ValidationResults → Bool
unfolding permission_eq
is_admin r = permission_eq r.permission admin

unfoldable pub can_read_all : ValidationResults → Bool
unfolding permission_eq
can_read_all r =
    permission_eq r.permission admin
    || permission_eq r.permission readonly
    || permission_eq r.permission password_manager

unfoldable pub can_read : ValidationResults → UserId → Bool
unfolding permission_eq user_id_eq
can_read r user =
    permission_eq r.permission admin
    || permission_eq r.permission password_manager
    || permission_eq r.permission readonly
    || user_id_eq r.user user

unfoldable pub can_change_password : ValidationResults → UserId → Bool → Bool
unfolding permission_eq user_id_eq
can_change_password r user user_is_admin =
    permission_eq r.permission admin
    || (permission_eq r.permission password_manager && not user_is_admin)
    || user_id_eq r.user user

unfoldable pub can_write : ValidationResults → UserId → Bool
unfolding permission_eq user_id_eq
can_write r user = permission_eq r.permission admin || user_id_eq r.user user
