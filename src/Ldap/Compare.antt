-- ===== src/Ldap/Compare.antt =====
-- crates/ldap/src/compare.rs: a comparison is answered from the results of a search.
pub mod Laws
pub mod Tests
use klldap.Base.{
  Bool, true, false, ◌&&◌, Option, none, some, List, [], ◌∷◌, any, find?, if◌then◌else◌,
}
use klldap.Text.{Str, str_eq, eq_ignore_ascii_case}
use klldap.Domain.{AttributeName, attribute_name}
use klldap.Ldap.Error.{LdapResultCode}
use klldap.Ldap.Scope.{LdapPartialAttribute, LdapSearchResultEntry}
use klldap.Ldap.World.{LdapOp, search_result_entry}

-- Of ldap3_proto; the value is the UTF-8 bytes of a text.
pub record LdapCompareRequest : Type 0 where
  pub dn : Str
  pub atype : Str
  pub val : Str

-- The `filter_map` that keeps the entries.
abbrev pub entries : List LdapOp → List LdapSearchResultEntry
entries [] = []
entries (search_result_entry e ∷ ops) = e ∷ entries ops
entries (op ∷ ops) = entries ops

abbrev pub has_dn : Str → LdapSearchResultEntry → Bool
has_dn dn e = eq_ignore_ascii_case e.dn dn

abbrev name_eq : AttributeName → AttributeName → Bool
name_eq a b = str_eq a.text b.text

abbrev pub has_value : LdapCompareRequest → LdapSearchResultEntry → Bool
has_value request e =
    any
      (λ attr.
        name_eq (attribute_name attr.atype) (attribute_name request.atype)
        && any (λ v. str_eq v request.val) attr.vals)
      e.attributes

abbrev pub answer : LdapCompareRequest → Str → Option LdapSearchResultEntry → LdapOp
answer request base_dn (some entry) =
    LdapOp.compare_result
      (if has_value request entry
        then LdapResultCode.compare_true
        else LdapResultCode.compare_false)
      request.dn
answer request base_dn none = LdapOp.compare_result LdapResultCode.no_such_object base_dn

-- It never fails.
unfoldable pub compare : LdapCompareRequest → List LdapOp → Str → List LdapOp
compare request search_results base_dn =
    answer request base_dn (find? (has_dn request.dn) (entries search_results)) ∷ []
