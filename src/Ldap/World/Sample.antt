-- ===== src/Ldap/World/Sample.antt =====
-- A small world for tests: the state lists the users whose passwords were changed, everyone's password
-- is `secret`, and everyone is in the group `staff`.
use klldap.Base.{ℕ, if◌then◌else◌, none, some, List, [], ◌∷◌, ok, err}
use klldap.Text.{Str, codes, str_eq, lower}
use klldap.Auth.{UserId, Permission, ValidationResults}
use klldap.Domain.{pos, User, Group, GroupDetails, DomainError}
use klldap.Domain.Deserialize.{Parsers}
use klldap.Ldap.Filter.{LdapInfo}
use klldap.Ldap.World.{World}

abbrev pub Changed : Type 0
Changed = List Str

abbrev pub bob : UserId
bob = record { text = codes "bob" }

abbrev pub alice : UserId
alice = record { text = codes "alice" }

abbrev pub regular_alice : ValidationResults
regular_alice = record { user = alice; permission = Permission.regular }

abbrev pub readonly_alice : ValidationResults
readonly_alice = record { user = alice; permission = Permission.readonly }

abbrev pub user_of : UserId → User Unit
user_of u = record {
  user_id = u;
  email = record { text = [] };
  display_name = none;
  creation_date = tt;
  uuid = [];
  attributes = [];
  modified_date = tt;
  password_modified_date = tt;
  krb_principal_name = none;
}

abbrev pub staff : GroupDetails Unit
staff = record {
  group_id = record { id = pos 1 };
  display_name = record { text = codes "staff" };
  creation_date = tt;
  uuid = [];
  attributes = [];
  modified_date = tt;
}

abbrev pub staff_group : Group Unit
staff_group = record {
  id = record { id = pos 1 };
  display_name = record { text = codes "staff" };
  creation_date = tt;
  uuid = [];
  users = [];
  attributes = [];
  modified_date = tt;
}

abbrev pub parsers : Parsers Unit
parsers = record {
  parse_i64 = λ s. ok (pos 0);
  parse_from_rfc3339 = λ s. err [];
  base64_decode = λ s. err [];
  process_avatar_input = λ b. ok b;
  parse_uuid = λ s. ok s;
}

abbrev pub world : World Changed Unit Str
world = record {
  bind = λ u password s.
      if str_eq password (codes "secret")
      then (ok tt, s)
      else (err (DomainError.authentication_error u.text), s);
  get_user_details = λ u s. (ok (user_of u), s);
  get_user_groups = λ u s. (ok (staff ∷ []), s);
  registration_start = λ u m s. (ok (u.text, m), s);
  registration_finish = λ u m s. (ok tt, u ∷ s);
  ensure_kerberos_principal_consistency = λ u b s. (ok tt, s);
  start_registration = λ p s. (ok (p, p), s);
  finish_registration = λ m p r s. (ok p, s);
  sync_kerberos_principal = λ u p s. (ok tt, s);
  list_users = λ f g s. (ok [], s);
  create_user = λ r s. (ok tt, r.user_id.text ∷ s);
  update_user = λ r s. (ok tt, r.user_id.text ∷ s);
  create_group = λ r s. (ok (record { id = pos 1 }), r.display_name.text ∷ s);
  list_groups = λ f s. (ok (staff_group ∷ []), s);
  delete_user = λ u s. (ok tt, s);
  delete_group = λ g s. (ok tt, s);
  delete_kerberos_principal = λ u s. (ok tt, s);
  parsers = parsers;
  as_bytes = λ t. t;
  from_utf8 = λ b. some b;
  debug_utf8_error = λ b. [];
  display_usize = λ n. [];
  debug_error = λ e. [];
  pretty_debug_error = λ e. [];
  display_error = λ e. [];
}

abbrev pub info : LdapInfo
info = record {
  base_dn = (codes "dc", codes "com") ∷ [];
  base_dn_str = codes "dc=com";
  ignored_user_attributes = [];
  ignored_group_attributes = [];
}

abbrev pub to_lowercase : ℕ → Str
to_lowercase c = lower c ∷ []

abbrev pub bob_dn : Str
bob_dn = codes "uid=Bob,ou=people,dc=com"
