-- ===== src/Auth/Rights.antt =====
-- How the rights of a bound user contain one another.
use klldap.Base.{Bool, true, ◌||◌, ◌≡◌, arith}
use klldap.Auth.{
  UserId, ValidationResults, permission_eq, user_id_eq, is_admin, can_read_all, can_read,
  can_change_password, can_write,
}

-- Each right contains the next: an administrator writes every user; who writes a user changes that
-- user's password, whether or not the user is an administrator; who changes a password reads the user;
-- and who reads all users reads each.
pub rights_nest :
    (r : ValidationResults) (u : UserId) (user_is_admin : Bool)
    → (is_admin r ≡ true → can_write r u ≡ true)
      × (can_write r u ≡ true → can_change_password r u user_is_admin ≡ true)
      × (can_change_password r u user_is_admin ≡ true → can_read r u ≡ true)
      × (can_read_all r ≡ true → can_read r u ≡ true)
unfolding is_admin can_write can_change_password can_read can_read_all permission_eq
rights_nest r u user_is_admin =
    (λ h. ground arith, λ h. ground arith, λ h. ground arith, λ h. ground arith)

-- The password of an administrator is changed only by who may write that user: by an administrator
-- or by the user.
pub can_change_password-admin :
    (r : ValidationResults) (u : UserId) → can_change_password r u true ≡ can_write r u
unfolding can_write can_change_password
can_change_password-admin r u = ground arith

-- Reading one user is reading all users, or being that user.
pub can_read-eq :
    (r : ValidationResults) (u : UserId) → can_read r u ≡ (can_read_all r || user_id_eq r.user u)
unfolding can_read can_read_all
can_read-eq r u = ground arith
