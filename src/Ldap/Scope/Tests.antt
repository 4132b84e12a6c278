-- ===== src/Ldap/Scope/Tests.antt =====
-- Scopes below `dc=com`.
use klldap.Base.{◌≡◌, ◌↔◌, List, [], ◌∷◌}
use klldap.Text.{
  Str, codes, lower, eq_ignore_ascii_case, join, split, trim, trim_end, trim_start, contains,
  is_empty, to_ascii_lowercase,
}
use klldap.Auth.{UserId}
use klldap.Ldap.Ou.{Rdn}
use klldap.Ldap.Ou.Subtree.{EndsIn}
use klldap.Ldap.Scope.{LdapSearchScope, SearchScope, get_search_scope}
use klldap.Ldap.Scope.Laws.{get_search_scope_iff}

-- Opens what a run of the text functions needs.
texts : Unit {0}
unfolding lower to_ascii_lowercase eq_ignore_ascii_case contains is_empty split join trim trim_end
    trim_start
texts = tt

abbrev dc_com : Rdn
dc_com = (codes "dc", codes "com")

abbrev home : Str
home = codes "people\\Home"

abbrev bob : UserId
bob = record { text = codes "bob" }

abbrev allowed : List Str
allowed = codes "people" ∷ codes "people\\home" ∷ []

get_search_scope_iff_example :
    ((get_search_scope
          (dc_com ∷ [])
          ((codes "ou", home) ∷ dc_com ∷ [])
          LdapSearchScope.subtree
          allowed
        ≡ SearchScope.invalid)
      ↔ ¬ (EndsIn ((codes "ou", home) ∷ dc_com ∷ []) (dc_com ∷ [])))
    × ((get_search_scope
            (dc_com ∷ [])
            ((codes "ou", home) ∷ dc_com ∷ [])
            LdapSearchScope.subtree
            allowed
          ≡ SearchScope.root)
        ↔ ((codes "ou", home) ∷ dc_com ∷ [] ≡ dc_com ∷ []))
get_search_scope_iff_example =
    get_search_scope_iff (dc_com ∷ []) ((codes "ou", home) ∷ dc_com ∷ []) LdapSearchScope.subtree
      allowed
