-- ===== src/Ldap/Scope/Laws.antt =====
-- The scope of a search against what its base stands for.
use klldap.Base.{
  ◌+◌, ◌≡◌, ◌≢◌, retain-append, append-nil, refl, sym, ap, ◌∙◌, ◌↔◌, true, false, ◌&&◌, List, [],
  ◌∷◌, ◌++◌, map, reverse, any, arith, ltb, ◌==◌, length, length-append, Bool-cases, inl, inr,
}
use klldap.Text.{Str, codes, join, eq_ignore_ascii_case}
use klldap.Text.Case.{str_eq_iff, str_eq_refl}
use klldap.Auth.{UserId}
use klldap.Ldap.Ou.{
  Rdn, DnParts, is_ou, ou_chain, is_subtree, is_container_dn, internal_ou_to_ldap_rdn_chain,
}
use klldap.Ldap.Ou.Subtree.{EndsIn, SameName-refl, is_subtree_iff}
use klldap.Ldap.Ou.Chain.{
  components, ou_rdn, internal_ou_to_ldap_rdn_chain-components, ou_chain-map,
  ldap_rdn_chain_to_internal_ou-internal_ou_to_ldap_rdn_chain,
}
use klldap.Ldap.Dn.{
  UserOrGroupName, user, group, format_dn, get_user_or_group_id_from_distinguished_name,
}
use klldap.Ldap.Dn.Format.{IsPlainText, build_user_dn-eq-format_dn}
use klldap.Ldap.Dn.Names.{IsPlace}
use klldap.Ldap.Dn.Roundtrip.{recognise-user}
use klldap.Ldap.Simplify.Laws.{and_right}
use klldap.Ldap.Scope.{
  LdapSearchScope, SearchScope, parts_eq, is_one_level_or_subtree, is_base, leaf_or,
  container_or_unknown, get_search_scope, scope_below_base,
}

parts_eq-eq : (ps qs : DnParts) → parts_eq ps qs ≡ true → ps ≡ qs
unfolding parts_eq
parts_eq-eq [] [] h = refl
parts_eq-eq [] (q ∷ qs) h = cc
parts_eq-eq (p ∷ ps) [] h = cc
parts_eq-eq ((k, v) ∷ ps) ((k', v') ∷ qs) h =
    let same_k = (str_eq_iff k k').0 (ground arith) in
    let same_v = (str_eq_iff v v').0 (ground arith) in
    let same = parts_eq-eq ps qs (ground arith) in cc (same_k, same_v, same)

parts_eq_refl : (ps : DnParts) → parts_eq ps ps ≡ true
unfolding parts_eq
parts_eq_refl [] = refl
parts_eq_refl ((k, v) ∷ ps) = rw (str_eq_refl k) (rw (str_eq_refl v) (parts_eq_refl ps))

is_subtree-above : (above base : DnParts) → is_subtree (above ++ base) base ≡ true
is_subtree-above above base =
    (is_subtree_iff (above ++ base) base).1 (above, base, refl, SameName-refl base)

parts_eq-longer : (r : Rdn) (above base : DnParts) → parts_eq (r ∷ (above ++ base)) base ≡ false
parts_eq-longer r above base = elim (Bool-cases (parts_eq (r ∷ (above ++ base)) base)) [
  | inr different ↦ different
  | inl same ↦
      let e = ap length (parts_eq-eq _ base same) in
      let l = length-append above base in absurd (omega arith)
]

leaf_or-below :
    (name : UserOrGroupName) (rest : SearchScope)
    → rest ≢ SearchScope.invalid
    → rest ≢ SearchScope.root
    → (leaf_or name rest ≢ SearchScope.invalid) × (leaf_or name rest ≢ SearchScope.root)
leaf_or-below (user u) rest h h' = (λ e. cc, λ e. cc)
leaf_or-below (group g) rest h h' = (λ e. cc, λ e. cc)
leaf_or-below unclear rest h h' = (h, h')

container_or_unknown-below :
    (base dn : DnParts) (allowed_ous : List Str)
    → (container_or_unknown base dn allowed_ous ≢ SearchScope.invalid)
      × (container_or_unknown base dn allowed_ous ≢ SearchScope.root)
container_or_unknown-below base dn allowed_ous = (ground arith, ground arith)

scope_below_base-below :
    (base dn : DnParts) (scope : LdapSearchScope) (allowed_ous : List Str)
    → (scope_below_base base dn scope allowed_ous ≢ SearchScope.invalid)
      × (scope_below_base base dn scope allowed_ous ≢ SearchScope.root)
scope_below_base-below base dn scope allowed_ous =
    let (valid, below) = container_or_unknown-below base dn allowed_ous in
    let (leaf_valid, leaf_below) =
      leaf_or-below (get_user_or_group_id_from_distinguished_name (format_dn dn) base)
        (container_or_unknown base dn allowed_ous) valid below in
    elim (Bool-cases (is_one_level_or_subtree scope && (length dn == length base + 1))) [
      | inl one ↦ rw one (λ e. cc, λ e. cc)
      | inr many ↦ elim (Bool-cases (is_base scope && ltb (length base) (length dn))) [
        | inl leaf ↦ rw (many, leaf) (leaf_valid, leaf_below)
        | inr inner ↦ rw (many, inner) (valid, below)
      ]
    ]

-- The scope is invalid exactly when the name does not end in the base, up to ASCII case; and it is the
-- root exactly when the name is the base.
pub get_search_scope_iff :
    (base dn : DnParts) (scope : LdapSearchScope) (allowed_ous : List Str)
    → ((get_search_scope base dn scope allowed_ous ≡ SearchScope.invalid) ↔ ¬ (EndsIn dn base))
      × ((get_search_scope base dn scope allowed_ous ≡ SearchScope.root) ↔ (dn ≡ base))
unfolding get_search_scope
get_search_scope_iff base dn scope allowed_ous =
    let (valid, below) = scope_below_base-below base dn scope allowed_ous in
    elim (Bool-cases (is_subtree dn base)) [
      | inr outside ↦ rw outside (
        (λ e ends. cc (outside, (is_subtree_iff dn base).1 ends), λ no. refl),
        (
          λ e. cc,
          λ same. absurd (cc (outside, ap (λ d. is_subtree d base) same, is_subtree-above [] base)),
        ),
      )
      | inl inside ↦ elim (Bool-cases (parts_eq dn base)) [
        | inl same ↦
            rw (inside, same)
              (
                (λ e. cc, λ no. absurd (no ((is_subtree_iff dn base).0 inside))),
                (λ e. parts_eq-eq dn base same, λ e. refl),
              )
        | inr different ↦
            rw (inside, different)
              (
                (λ e. absurd (valid e), λ no. absurd (no ((is_subtree_iff dn base).0 inside))),
                (
                  λ e. absurd (below e),
                  λ same.
                      absurd (cc (different, ap (λ d. parts_eq d base) same, parts_eq_refl base)),
                ),
              )
      ]
    ]

-- A base search at the name built for a user finds the user's entry, at any depth of units and whatever
-- units are allowed: the user name and the components of the unit are plain, and the base is clean with
-- no unit.
pub get_search_scope-user :
    (u : UserId) (ou : Str) (b : Rdn) (base : DnParts) (allowed_ous : List Str)
    → IsPlainText u.text
    → IsPlace ou (b ∷ base)
    → ou_chain (b ∷ base) ≡ []
    → get_search_scope
        (b ∷ base)
        ((codes "uid", u.text) ∷ (internal_ou_to_ldap_rdn_chain ou ++ (b ∷ base)))
        LdapSearchScope.base
        allowed_ous
      ≡ SearchScope.leaf_user
unfolding get_search_scope
get_search_scope-user u ou b base allowed_ous plain place none_in_base =
    let uid : Rdn = (codes "uid", u.text) in
    let chain = map ou_rdn (reverse (components ou)) in
    let inside = is_subtree-above (uid ∷ chain) (b ∷ base) in
    let different = parts_eq-longer uid chain (b ∷ base) in
    let fits : ltb (length (b ∷ base)) (length (uid ∷ (chain ++ (b ∷ base)))) ≡ true =
      let l = length-append chain (b ∷ base) in ground arith in
    let found =
      ap (λ t. get_user_or_group_id_from_distinguished_name t (b ∷ base))
        (sym (build_user_dn-eq-format_dn ou b base u))
      ∙ recognise-user ou b base place u plain none_in_base in
    rw internal_ou_to_ldap_rdn_chain-components (rw (inside, different, fits, found))

ou_chain-above :
    (ou : Str) (base : DnParts)
    → ou_chain base ≡ []
    → ou_chain (internal_ou_to_ldap_rdn_chain ou ++ base) ≡ internal_ou_to_ldap_rdn_chain ou
ou_chain-above ou base none_in_base =
    let chain = map ou_rdn (reverse (components ou)) in
    rw internal_ou_to_ldap_rdn_chain-components (
      retain-append is_ou chain base
      ∙ rw (ou_chain-map (reverse (components ou)), none_in_base) (append-nil chain))

-- The entry made for a unit names a container exactly if some allowed unit is, up to ASCII case, the
-- unit with its components trimmed and the empty ones dropped: the base has no unit.
pub is_container_dn-ou :
    (ou : Str) (base : DnParts) (allowed_ous : List Str)
    → ou_chain base ≡ []
    → is_container_dn (internal_ou_to_ldap_rdn_chain ou ++ base) base allowed_ous
      ≡ any (λ allowed. eq_ignore_ascii_case allowed (join b'\\' (components ou))) allowed_ous
unfolding is_container_dn
is_container_dn-ou ou base allowed_ous none_in_base =
    let chain = internal_ou_to_ldap_rdn_chain ou in
    let l = length-append chain base in
    let fits : (length (chain ++ base) == length base + length chain) ≡ true = ground arith in
    rw
      (
        ou_chain-above ou base none_in_base,
        fits,
        ldap_rdn_chain_to_internal_ou-internal_ou_to_ldap_rdn_chain ou,
      )
      (and_right _)
