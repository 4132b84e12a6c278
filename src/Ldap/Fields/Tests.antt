-- ===== src/Ldap/Fields/Tests.antt =====
-- A concrete attribute map.
use klldap.Base.{◌≡◌, refl, some, [], ◌∷◌, ◌||◌, if◌then◌else◌, List}
use klldap.Text.{Str, codes, str_eq, to_ascii_lowercase, lower}
use klldap.Domain.{UserColumn}
use klldap.Ldap.Fields.{LogicalAttr, get, register_aliases, register, resolve_attribute, core_attrs}
use klldap.Ldap.Fields.Mapping.{is_alias, resolve_attribute-register}

abbrev mail : LogicalAttr
mail = LogicalAttr.primary UserColumn.email

abbrev aliases : List Str
aliases = codes "email" ∷ codes "E-Mail" ∷ []

email-run :
    resolve_attribute (register mail (codes "mail") aliases []) (codes "e-MAIL")
    ≡ some (mail, codes "mail")
unfolding resolve_attribute register register_aliases get str_eq to_ascii_lowercase lower
email-run = refl

core-run :
    resolve_attribute core_attrs (codes "IsMemberOf")
    ≡ some (LogicalAttr.member_of, codes "memberOf")
unfolding resolve_attribute core_attrs register register_aliases get str_eq to_ascii_lowercase lower
core-run = refl

resolve_attribute-register_example :
    resolve_attribute (register mail (codes "mail") aliases []) (codes "e-MAIL") ≡ (
      if str_eq (to_ascii_lowercase (codes "mail")) (to_ascii_lowercase (codes "e-MAIL"))
        || is_alias (to_ascii_lowercase (codes "e-MAIL")) aliases
      then some (mail, codes "mail")
      else resolve_attribute [] (codes "e-MAIL"))
resolve_attribute-register_example =
    resolve_attribute-register mail (codes "mail") aliases [] (codes "e-MAIL")
