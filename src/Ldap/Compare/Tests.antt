-- ===== src/Ldap/Compare/Tests.antt =====
-- A comparison among two entries.
use klldap.Base.{◌≡◌, refl, true, false, any, if◌then◌else◌, [], ◌∷◌, ◌++◌}
use klldap.Text.{codes, str_eq, lower, to_ascii_lowercase, eq_ignore_ascii_case}
use klldap.Domain.{attribute_name}
use klldap.Ldap.Error.{LdapResultCode}
use klldap.Ldap.Scope.{LdapSearchResultEntry}
use klldap.Ldap.World.{LdapOp, search_result_entry}
use klldap.Ldap.Compare.{LdapCompareRequest, entries, has_dn, has_value, compare}
use klldap.Ldap.Compare.Laws.{compare-target}

abbrev people : LdapSearchResultEntry
people = record { dn = codes "ou=people,dc=com"; attributes = [] }

abbrev bob : LdapSearchResultEntry
bob = record {
  dn = codes "uid=bob,ou=people,dc=com";
  attributes = record { atype = codes "UID"; vals = codes "bob" ∷ [] } ∷ [];
}

abbrev request : LdapCompareRequest
request = record { dn = codes "uid=Bob,ou=people,dc=com"; atype = codes "uid"; val = codes "bob" }

people-elsewhere : any (has_dn request.dn) (entries (search_result_entry people ∷ [])) ≡ false
unfolding eq_ignore_ascii_case lower
people-elsewhere = refl

bob-hit : has_dn request.dn bob ≡ true
unfolding eq_ignore_ascii_case lower
bob-hit = refl

compare-run :
    compare request (search_result_entry people ∷ search_result_entry bob ∷ []) (codes "dc=com")
    ≡ LdapOp.compare_result LdapResultCode.compare_true request.dn ∷ []
unfolding compare eq_ignore_ascii_case lower str_eq attribute_name to_ascii_lowercase
compare-run = refl

compare-target_example :
    (compare request
        ((search_result_entry people ∷ []) ++ (search_result_entry bob ∷ []))
        (codes "dc=com")
      ≡ LdapOp.compare_result
          (if has_value request bob
            then LdapResultCode.compare_true
            else LdapResultCode.compare_false)
          request.dn
        ∷ [])
    × (compare request (search_result_entry people ∷ []) (codes "dc=com")
        ≡ LdapOp.compare_result LdapResultCode.no_such_object (codes "dc=com") ∷ [])
compare-target_example =
    compare-target request (search_result_entry people ∷ []) [] bob (codes "dc=com")
      people-elsewhere bob-hit
