-- ===== src/Ldap/Filter.antt =====
-- The search filters of ldap3_proto, the shared configuration of crates/ldap/src/core/utils.rs, and
-- the texts that the `Debug` printers make.
use klldap.Base.{Option, List, ok, ◌>>=◌}
use klldap.Text.{Str, to_ascii_lowercase}
use klldap.Domain.{AttributeName}
use klldap.Handlers.{SubStringFilter}
use klldap.Ldap.Error.{LdapResult}
use klldap.Ldap.Ou.{DnParts}
use klldap.Ldap.Dn.{parse_distinguished_name, format_dn}

pub record LdapSubstringFilter : Type 0 where
  pub initial : Option Str
  pub anywhere : List Str
  pub final : Option Str

-- `From<LdapSubstringFilter>`.
abbrev pub sub_string_filter : LdapSubstringFilter → SubStringFilter
sub_string_filter f = record { initial = f.initial; anywhere = f.anywhere; final = f.final }

-- `other` stands for the variants that the crate handles by its last arm.
mutual
  pub data LdapFilter : Type 0 where
    and or : LdapFilters → LdapFilter
    not : LdapFilter → LdapFilter
    equality greater_or_equal less_or_equal : Str → Str → LdapFilter
    substring : Str → LdapSubstringFilter → LdapFilter
    present : Str → LdapFilter
    other : LdapFilter

  pub data LdapFilters : Type 0 where
    nil : LdapFilters
    cons : LdapFilter → LdapFilters → LdapFilters

pub record LdapInfo : Type 0 where
  pub base_dn : DnParts
  pub base_dn_str : Str
  pub ignored_user_attributes : List AttributeName
  pub ignored_group_attributes : List AttributeName

-- `LdapInfo::new`.
unfoldable pub new_ldap_info : Str → List AttributeName → List AttributeName → LdapResult LdapInfo
new_ldap_info base_dn ignored_user ignored_group = do
  parts ← parse_distinguished_name (to_ascii_lowercase base_dn)
  ok (record {
    base_dn = parts;
    base_dn_str = format_dn parts;
    ignored_user_attributes = ignored_user;
    ignored_group_attributes = ignored_group;
  })

pub record Printers : Type 0 where
  pub debug_filter : LdapFilter → Str
  pub debug_name : AttributeName → Str
