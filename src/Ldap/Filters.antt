-- ===== src/Ldap/Filters.antt =====
-- crates/ldap/src/search/filters.rs: from LDAP filters to the request filters of the back end.
pub mod Users
pub mod Groups
pub mod Tests
use klldap.Base.{
  Bool, true, false, ◌||◌, String, Option, none, some, List, [], ◌∷◌, ◌++◌, map, any, if◌then◌else◌,
  Result, ok, err,
}
use klldap.Text.{Str, codes, str_eq, to_ascii_lowercase}
use klldap.Schema.{AttributeType, Schema}
use klldap.Domain.{AttributeName, GroupName}
use klldap.Domain.Deserialize.{Parsers}
use klldap.Ldap.Error.{LdapResultCode, LdapError, LdapResult}
use klldap.Ldap.Filter.{LdapInfo, Printers}
use klldap.Ldap.Fields.{AttributeMap}

-- What both conversions read: the configuration, the schema, the schema manager's map, and the
-- parsers and printers of other crates. `D` stands for dates and `P` for the POSIX settings.
pub record Context (D P : Type 0) : Type 0 where
  pub ldap_info : LdapInfo
  pub schema : Schema P
  pub manager : AttributeMap
  pub parsers : Parsers D
  pub printers : Printers

abbrev pub group_name : String → GroupName
group_name s = record { text = codes s }

-- `[…].contains(&v)`, against literals and against texts.
abbrev pub is_text : Str → String → Bool
is_text s name = str_eq s (codes name)

abbrev pub contains_text : List Str → Str → Bool
contains_text names s = any (λ name. str_eq name s) names

abbrev pub unwilling : Str → LdapError
unwilling message = record { code = LdapResultCode.unwilling_to_perform; message = message }

abbrev pub other_error : Str → LdapError
other_error message = record { code = LdapResultCode.other; message = message }

-- `.map(f).unwrap_or_else(|_| default)`, in `Ok`.
abbrev pub map_or {ℓ} : {A F : Type ℓ} → (A → F) → F → LdapResult A → LdapResult F
map_or f default (ok a) = ok (f a)
map_or f default (err e) = ok default
