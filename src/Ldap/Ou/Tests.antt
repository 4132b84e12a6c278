-- ===== src/Ldap/Ou/Tests.antt =====
-- The two forms of a concrete unit.
use klldap.Base.{◌≡◌, refl, [], ◌∷◌}
use klldap.Text.{codes, split, join, trim, trim_end, trim_start, is_empty}
use klldap.Ldap.Ou.{internal_ou_to_ldap_rdn_chain, ldap_rdn_chain_to_internal_ou}
use klldap.Ldap.Ou.Chain.{components, ldap_rdn_chain_to_internal_ou-internal_ou_to_ldap_rdn_chain}

components-run : components (codes " people\\ Home ") ≡ codes "people" ∷ codes "Home" ∷ []
unfolding split trim trim_end trim_start is_empty
components-run = refl

ldap_rdn_chain_to_internal_ou-internal_ou_to_ldap_rdn_chain_example :
    ldap_rdn_chain_to_internal_ou (internal_ou_to_ldap_rdn_chain (codes " people\\ Home "))
    ≡ join b'\\' (components (codes " people\\ Home "))
ldap_rdn_chain_to_internal_ou-internal_ou_to_ldap_rdn_chain_example =
    ldap_rdn_chain_to_internal_ou-internal_ou_to_ldap_rdn_chain (codes " people\\ Home ")
