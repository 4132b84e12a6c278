-- ===== src/Ldap/Ou/Chain.antt =====
-- The two forms of an organisational unit: `people\home` and the chain `ou=home,ou=people`.
use mathlib.Core.List.{reverse-reverse}
use klldap.Base.{
  ◌≡◌, refl, ap, sym, ◌∙◌, Bool, true, not, List, [], ◌∷◌, map, reverse, map-reverse,
  retain-reverse, arith, All, retain, Bool-cases, inl, inr, if◌then◌else◌,
}
use klldap.Text.{
  Str, codes, is_empty, split, join, trim, is_whitespace, eq_ignore_ascii_case, lower,
}
use klldap.Text.Split.{All-split}
use klldap.Text.Trim.{trim-eq-nil, trim_of_space}
use klldap.Ldap.Ou.{
  Rdn, ou_chain, rdn_value, chain_from, internal_ou_to_ldap_rdn_chain,
  ldap_rdn_chain_to_internal_ou,
}

abbrev non_empty : Str → Bool
non_empty s = not (is_empty s)

-- The components of an internal unit, the outermost first: the trimmed pieces between backslashes
-- that are not empty.
abbrev pub components : Str → List Str
components ou = retain non_empty (map trim (split b'\\' ou))

abbrev pub ou_rdn : Str → Rdn
ou_rdn s = (codes "ou", s)

chain_from-eq-map : (ps : List Str) → chain_from ps ≡ map ou_rdn (retain non_empty (map trim ps))
unfolding chain_from
chain_from-eq-map [] = refl
chain_from-eq-map (p ∷ ps) = ground (arith, chain_from-eq-map ps)

retain-map-reverse :
    (ps : List Str)
    → retain non_empty (map trim (reverse ps)) ≡ reverse (retain non_empty (map trim ps))
retain-map-reverse ps =
    ap (retain non_empty) (map-reverse trim ps) ∙ retain-reverse non_empty (map trim ps)

no_components :
    (ps : List Str)
    → All (All (λ c. is_whitespace c ≡ true)) ps
    → retain non_empty (map trim ps) ≡ []
unfolding is_empty
no_components [] h = refl
no_components (p ∷ ps) h = rw (trim_of_space p h.0) (no_components ps h.1)

nil_of_is_empty {ℓ} : {A : Type ℓ} (xs : List A) → is_empty xs ≡ true → xs ≡ []
unfolding is_empty
nil_of_is_empty [] h = refl
nil_of_is_empty (x ∷ xs) h = cc

-- The chain holds the components, the innermost first, each under `ou`.
pub internal_ou_to_ldap_rdn_chain-components :
    (ou : Str) → internal_ou_to_ldap_rdn_chain ou ≡ map ou_rdn (reverse (components ou))
unfolding internal_ou_to_ldap_rdn_chain
internal_ou_to_ldap_rdn_chain-components ou = elim (Bool-cases (is_empty (trim ou))) [
  | inl blank ↦ rw blank (
      ap (λ xs. map ou_rdn (reverse xs)) {x = []}
        (sym (
          no_components _ (
            All-split (λ c. is_whitespace c ≡ true) b'\\' ou
              (trim-eq-nil ou (nil_of_is_empty _ blank))))))
  | inr some_text ↦ rw some_text (
      chain_from-eq-map (reverse (split b'\\' ou))
      ∙ ap (map ou_rdn) (retain-map-reverse (split b'\\' ou)))
]

pub ou_chain-map : (ps : List Str) → ou_chain (map ou_rdn ps) ≡ map ou_rdn ps
unfolding eq_ignore_ascii_case lower
ou_chain-map [] = refl
ou_chain-map (p ∷ ps) = rw (ou_chain-map ps)

map-rdn_value : (ps : List Str) → map rdn_value (map ou_rdn ps) ≡ ps
map-rdn_value [] = refl
map-rdn_value (p ∷ ps) = rw (map-rdn_value ps)

join_if : (ps : List Str) → (if is_empty ps then [] else join b'\\' ps) ≡ join b'\\' ps
unfolding is_empty join
join_if [] = refl
join_if (p ∷ ps) = refl

-- Converting to a chain and back normalises the unit: its non-empty components, trimmed, joined by
-- backslashes again.
pub ldap_rdn_chain_to_internal_ou-internal_ou_to_ldap_rdn_chain :
    (ou : Str)
    → ldap_rdn_chain_to_internal_ou (internal_ou_to_ldap_rdn_chain ou) ≡ join b'\\' (components ou)
unfolding ldap_rdn_chain_to_internal_ou
ldap_rdn_chain_to_internal_ou-internal_ou_to_ldap_rdn_chain ou = simp (
  internal_ou_to_ldap_rdn_chain-components, ou_chain-map, map-rdn_value, reverse-reverse, join_if,
)
