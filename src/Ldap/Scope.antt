-- ===== src/Ldap/Scope.antt =====
-- crates/ldap/src/search/scope.rs: what the base of a search stands for, and the synthetic entries of
-- the organisational units.
pub mod Laws
pub mod Tests
use klldap.Base.{
  ◌+◌, ◌<◌, Bool, true, false, not, ◌&&◌, ◌||◌, String, List, [], ◌∷◌, ◌++◌, map, ltb, ◌==◌,
  if◌then◌else◌, length,
}
use klldap.Text.{Str, codes, str_eq, to_ascii_lowercase, is_empty}
use klldap.Ldap.Ou.{
  Rdn, DnParts, default_primary_user_ou, is_subtree, is_container_dn, internal_ou_to_ldap_rdn_chain,
}
use klldap.Ldap.Dn.{
  UserOrGroupName, user, group, format_dn, get_user_or_group_id_from_distinguished_name,
}
use klldap.Ldap.Filter.{LdapFilter, LdapFilters}

-- Of ldap3_proto; `other` stands for the scopes that the crate never names.
pub data LdapSearchScope : Type 0 where
  base one_level subtree other : LdapSearchScope

pub data SearchScope : Type 0 where
  root container leaf_user leaf_group invalid unknown : SearchScope

abbrev rdn_eq : Rdn → Rdn → Bool
rdn_eq (k, v) (k', v') = str_eq k k' && str_eq v v'

-- `==` on slices of pairs.
unfoldable pub parts_eq : DnParts → DnParts → Bool
parts_eq [] [] = true
parts_eq [] (q ∷ qs) = false
parts_eq (p ∷ ps) [] = false
parts_eq (p ∷ ps) (q ∷ qs) = rdn_eq p q && parts_eq ps qs

abbrev pub is_one_level_or_subtree : LdapSearchScope → Bool
is_one_level_or_subtree LdapSearchScope.one_level = true
is_one_level_or_subtree LdapSearchScope.subtree = true
is_one_level_or_subtree scope = false

abbrev pub is_base : LdapSearchScope → Bool
is_base LdapSearchScope.base = true
is_base scope = false

-- The match on the name, with what follows where it is no leaf.
abbrev pub leaf_or : UserOrGroupName → SearchScope → SearchScope
leaf_or (user u) rest = SearchScope.leaf_user
leaf_or (group g) rest = SearchScope.leaf_group
leaf_or unclear rest = rest

abbrev pub container_or_unknown : DnParts → DnParts → List Str → SearchScope
container_or_unknown base_dn dn_parts allowed_ous =
    if is_container_dn dn_parts base_dn allowed_ous
    then SearchScope.container
    else SearchScope.unknown

-- The tests after the one for the root.
abbrev pub scope_below_base : DnParts → DnParts → LdapSearchScope → List Str → SearchScope
scope_below_base base_dn dn_parts ldap_scope allowed_ous =
    if is_one_level_or_subtree ldap_scope && (length dn_parts == length base_dn + 1)
    then SearchScope.container
    else if is_base ldap_scope && ltb (length base_dn) (length dn_parts)
    then leaf_or (get_user_or_group_id_from_distinguished_name (format_dn dn_parts) base_dn)
        (container_or_unknown base_dn dn_parts allowed_ous)
    else container_or_unknown base_dn dn_parts allowed_ous

unfoldable pub get_search_scope : DnParts → DnParts → LdapSearchScope → List Str → SearchScope
unfolding parts_eq
get_search_scope base_dn dn_parts ldap_scope allowed_ous =
    if not (is_subtree dn_parts base_dn)
    then SearchScope.invalid
    else if parts_eq dn_parts base_dn
    then SearchScope.root
    else scope_below_base base_dn dn_parts ldap_scope allowed_ous

-- Of ldap3_proto; the values are the UTF-8 bytes of the texts.
pub record LdapPartialAttribute : Type 0 where
  pub atype : Str
  pub vals : List Str

pub record LdapSearchResultEntry : Type 0 where
  pub dn : Str
  pub attributes : List LdapPartialAttribute

abbrev pub partial_attribute : String → List Str → LdapPartialAttribute
partial_attribute atype vals = record { atype = codes atype; vals = vals }

abbrev pub first_value_or : Str → DnParts → Str
first_value_or default [] = default
first_value_or default ((k, v) ∷ rest) = v

abbrev pub ou_entry_dn : Str → Str → Str
ou_entry_dn ou_part base_dn_str =
    if is_empty ou_part then base_dn_str else ou_part ++ (b',' ∷ base_dn_str)

-- `new_v5` stands for the uuid crate's `Uuid::new_v5` in the DNS namespace, printed.
module _ (new_v5 : Str → Str) where
  abbrev operational_attributes : Str → Str → List LdapPartialAttribute
  operational_attributes base_dn_str dn =
      partial_attribute "hasSubordinates" (codes "TRUE" ∷ [])
      ∷ partial_attribute "structuralObjectClass" (codes "organizationalUnit" ∷ [])
      ∷ partial_attribute "subschemaSubentry" ((codes "cn=Subschema," ++ base_dn_str) ∷ [])
      ∷ partial_attribute "entryUUID" (new_v5 dn ∷ [])
      ∷ []

  unfoldable pub make_ou_entry : Str → Str → Bool → LdapSearchResultEntry
  make_ou_entry ou_str base_dn_str include_operational_attributes =
      let rdn_chain = internal_ou_to_ldap_rdn_chain ou_str in
      let dn = ou_entry_dn (format_dn rdn_chain) base_dn_str in
      record {
        dn = dn;
        attributes =
            (partial_attribute "objectClass" (codes "top" ∷ codes "organizationalUnit" ∷ [])
              ∷ partial_attribute "ou" (first_value_or default_primary_user_ou rdn_chain ∷ [])
              ∷ [])
            ++ (if include_operational_attributes
                then operational_attributes base_dn_str dn
                else []);
      }

  unfoldable pub build_ou_entries : List Str → Str → Bool → List LdapSearchResultEntry
  build_ou_entries allowed_ous base_dn_str include_operational_attributes =
      map (λ ou. make_ou_entry ou base_dn_str include_operational_attributes) allowed_ous

abbrev ou_equality : Str → Str → Str → Bool
ou_equality ou_str f v =
    if str_eq f (codes "ou")
    then str_eq (to_ascii_lowercase ou_str) v
    else if str_eq f (codes "objectclass")
    then str_eq v (codes "organizationalunit") || str_eq v (codes "top")
    else true

unfoldable mutual
  pub ou_matches_filter : Str → LdapFilter → Bool
  ou_matches_filter ou_str (LdapFilter.equality field value) =
      ou_equality ou_str (to_ascii_lowercase field) (to_ascii_lowercase value)
  ou_matches_filter ou_str (LdapFilter.present field) =
      let f = to_ascii_lowercase field in
      str_eq f (codes "ou")
      || str_eq f (codes "objectclass")
      || str_eq f (codes "hassubordinates")
      || str_eq f (codes "structuralobjectclass")
  ou_matches_filter ou_str (LdapFilter.and filters) = ou_matches_all ou_str filters
  ou_matches_filter ou_str (LdapFilter.or filters) = ou_matches_any ou_str filters
  ou_matches_filter ou_str (LdapFilter.not f) = not (ou_matches_filter ou_str f)
  ou_matches_filter ou_str inapplicable = true

  pub ou_matches_all : Str → LdapFilters → Bool
  ou_matches_all ou_str LdapFilters.nil = true
  ou_matches_all ou_str (LdapFilters.cons f fs) =
      ou_matches_filter ou_str f && ou_matches_all ou_str fs

  pub ou_matches_any : Str → LdapFilters → Bool
  ou_matches_any ou_str LdapFilters.nil = false
  ou_matches_any ou_str (LdapFilters.cons f fs) =
      ou_matches_filter ou_str f || ou_matches_any ou_str fs
