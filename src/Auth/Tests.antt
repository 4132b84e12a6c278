-- ===== src/Auth/Tests.antt =====
-- Rights of concrete users.
use klldap.Base.{◌≡◌, refl, true, false}
use klldap.Text.{codes, str_eq, to_ascii_lowercase, lower}
use klldap.Auth.{
  UserId, Permission, ValidationResults, user_id, can_change_password, permission_eq, user_id_eq,
}

abbrev bob : UserId
bob = record { text = codes "bob" }

abbrev manager : ValidationResults
manager = record {
  user = record { text = codes "alice" };
  permission = Permission.password_manager;
}

user_id-case : user_id (codes "Bob") ≡ bob
unfolding user_id to_ascii_lowercase lower
user_id-case = refl

manager-not-admin_password : can_change_password manager bob true ≡ false
unfolding can_change_password permission_eq user_id_eq str_eq
manager-not-admin_password = refl

manager-password : can_change_password manager bob false ≡ true
unfolding can_change_password permission_eq user_id_eq str_eq
manager-password = refl
