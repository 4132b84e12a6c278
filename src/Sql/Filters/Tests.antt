-- ===== src/Sql/Filters/Tests.antt =====
-- A filter on its way to the database.
use klldap.Base.{◌≡◌, refl, Bool, some, none, [], ok}
use klldap.Text.{Str, codes, lower, to_ascii_lowercase, eq_ignore_ascii_case}
use klldap.Schema.{Schema}
use klldap.Domain.{pos, attribute_name}
use klldap.Handlers.{UserRequestFilter, GroupRequestFilter}
use klldap.Ldap.Filter.{LdapFilter, LdapFilters}
use klldap.Ldap.Simplify.{simplify}
use klldap.Ldap.Filters.{Context}
use klldap.Ldap.Filters.Users.{convert_user_filter, convert_user_leaf, user_present}
use klldap.Ldap.Filters.Users.Meaning.{ldap_user_meaning}
use klldap.Ldap.Filters.Groups.{convert_group_filter}
use klldap.Ldap.Filters.Groups.Meaning.{ldap_group_meaning}
use klldap.Ldap.World.Sample.{info, parsers}
use klldap.Sql.Values.{Codec}
use klldap.Sql.Filters.{Expr, Cond}
use klldap.Sql.Filters.Users.{get_user_filter_expr}
use klldap.Sql.Filters.Groups.{get_group_filter_expr}
use klldap.Sql.Filters.Meaning.{eval, user_holds, group_holds}
use klldap.Sql.Filters.Ldap.{
  get_user_filter_expr-convert_user_filter, get_group_filter_expr-convert_group_filter,
}

abbrev codec : Codec Unit
codec = record {
  as_bytes = λ s. s;
  from_utf8 = λ b. some b;
  json_to_vec = λ l. [];
  json_from_slice = λ b. none;
  i64_to_string = λ i. [];
  parse_i64 = λ s. none;
  timestamp = λ d. pos 0;
  bincode_date = λ b. tt;
  bincode_dates = λ b. [];
  new_avatar = λ b. record { bytes = b };
}

abbrev schema : Schema Unit
schema = record {
  user_attributes = record { attributes = [] };
  group_attributes = record { attributes = [] };
  system_attributes = record { attributes = [] };
  posix_settings = tt;
  extra_user_object_classes = [];
  extra_group_object_classes = [];
}

abbrev context : Context Unit Unit
context = record {
  ldap_info = info;
  schema = schema;
  manager = [];
  parsers = parsers;
  printers = record { debug_filter = λ f. []; debug_name = λ n. [] };
}

abbrev same : Str → Str
same s = s

-- `(!(loginDisabled=*))`.
abbrev enabled : LdapFilter
enabled = LdapFilter.not (LdapFilter.present (codes "loginDisabled"))

abbrev not_disabled : UserRequestFilter Unit
not_disabled =
    UserRequestFilter.not (UserRequestFilter.member_of (record { text = codes "lldap_disabled" }))

enabled-accepted : convert_user_filter context enabled ≡ ok not_disabled
unfolding convert_user_filter convert_user_leaf user_present attribute_name to_ascii_lowercase lower
    eq_ignore_ascii_case
enabled-accepted = refl

get_user_filter_expr-convert_user_filter_example :
    (condition : Cond) × (get_user_filter_expr codec same not_disabled ≡ some condition)
    × ((row : Expr → Bool)
        → ldap_user_meaning (user_holds row codec same) context enabled ≡ ok (eval row condition))
get_user_filter_expr-convert_user_filter_example =
    get_user_filter_expr-convert_user_filter codec same context enabled not_disabled
      enabled-accepted

abbrev every_row : Expr → Bool
every_row e = Bool.true

abbrev nothing : LdapFilter
nothing = LdapFilter.or LdapFilters.nil

nothing-accepted :
    convert_group_filter context (λ s. some (pos 7)) nothing ≡ ok GroupRequestFilter.false
unfolding convert_group_filter klldap.Ldap.Filters.Groups.simplify_or simplify
nothing-accepted = refl

get_group_filter_expr-convert_group_filter_example :
    ldap_group_meaning (group_holds every_row codec same) context (λ s. some (pos 7)) nothing
    ≡ ok (eval every_row (get_group_filter_expr codec same GroupRequestFilter.false))
get_group_filter_expr-convert_group_filter_example =
    get_group_filter_expr-convert_group_filter codec same context (λ s. some (pos 7)) nothing
      GroupRequestFilter.false every_row nothing-accepted
