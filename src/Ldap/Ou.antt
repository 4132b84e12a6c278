-- ===== src/Ldap/Ou.antt =====
-- crates/ldap/src/dn.rs, "OU & DN utilities": the parts of a distinguished name, the internal form
-- of organisational units (`people\home`), containers and subtrees.
pub mod Subtree
pub mod Chain
pub mod Tests
use klldap.Base.{
  ◌+◌, ◌-◌, Bool, true, false, not, ◌&&◌, none, some, List, [], ◌∷◌, ◌++◌, map, reverse, ltb, ◌==◌,
  if◌then◌else◌, length, drop, retain, any,
}
use klldap.Text.{
  Str, codes, to_ascii_lowercase, eq_ignore_ascii_case, contains, is_empty, split, join, trim,
  strip_prefix,
}

-- A relative distinguished name: its type and its value.
abbrev pub Rdn : Type 0
Rdn = Str × Str

abbrev pub DnParts : Type 0
DnParts = List Rdn

abbrev pub default_primary_user_ou : Str
default_primary_user_ou = codes "people"

abbrev pub default_primary_group_ou : Str
default_primary_group_ou = codes "groups"

abbrev pub is_ou : Rdn → Bool
is_ou (k, v) = eq_ignore_ascii_case k (codes "ou")

abbrev pub ou_chain : DnParts → DnParts
ou_chain parts = retain is_ou parts

abbrev rdn_value : Rdn → Str
rdn_value (k, v) = v

unfoldable pub ldap_rdn_chain_to_internal_ou : DnParts → Str
ldap_rdn_chain_to_internal_ou rdn_chain =
    let ous = reverse (map rdn_value (ou_chain rdn_chain)) in
    if is_empty ous then [] else join b'\\' ous

unfoldable pub get_internal_ou_from_dn_parts : DnParts → Str
unfolding ldap_rdn_chain_to_internal_ou
get_internal_ou_from_dn_parts dn_parts = ldap_rdn_chain_to_internal_ou (ou_chain dn_parts)

-- The closure of the filter in `get_direct_child_ous`.
is_direct_child : Str → Str → Bool
is_direct_child parent_l ou_l =
    if is_empty parent_l
    then not (contains b'\\' ou_l)
    else elim (strip_prefix (parent_l ++ (b'\\' ∷ [])) ou_l) [
      | none ↦ false
      | some suffix ↦ not (contains b'\\' suffix)
    ]

unfoldable pub get_direct_child_ous : Str → List Str → List Str
unfolding is_direct_child
get_direct_child_ous parent_internal_ou allowed_ous =
    let parent_l = to_ascii_lowercase parent_internal_ou in
    retain (λ ou. is_direct_child parent_l (to_ascii_lowercase ou)) allowed_ous

-- The loop of `internal_ou_to_ldap_rdn_chain`.
chain_from : List Str → DnParts
chain_from [] = []
chain_from (part ∷ parts) =
    let rest = chain_from parts in
    let trimmed = trim part in if is_empty trimmed then rest else (codes "ou", trimmed) ∷ rest

unfoldable pub internal_ou_to_ldap_rdn_chain : Str → DnParts
unfolding chain_from
internal_ou_to_ldap_rdn_chain ou =
    if is_empty (trim ou) then [] else chain_from (reverse (split b'\\' ou))

unfoldable pub is_container_dn : DnParts → DnParts → List Str → Bool
unfolding ldap_rdn_chain_to_internal_ou
is_container_dn dn_parts base_dn allowed_ous =
    let internal_ou = ldap_rdn_chain_to_internal_ou (ou_chain dn_parts) in
    any (λ allowed. eq_ignore_ascii_case allowed internal_ou) allowed_ous
    && (length dn_parts == length base_dn + length (ou_chain dn_parts))

abbrev pub rdn_eq_ignore_case : Rdn → Rdn → Bool
rdn_eq_ignore_case (k, v) (k', v') = eq_ignore_ascii_case k k' && eq_ignore_ascii_case v v'

-- The loop of `is_subtree`: the parts from the offset on against the base.
abbrev pub same_parts : DnParts → DnParts → Bool
same_parts parts [] = true
same_parts [] (b ∷ base) = false
same_parts (p ∷ parts) (b ∷ base) = rdn_eq_ignore_case p b && same_parts parts base

unfoldable pub is_subtree : DnParts → DnParts → Bool
is_subtree subtree base_tree =
    if is_empty base_tree
    then true
    else if ltb (length subtree) (length base_tree)
    then false
    else same_parts (drop (length subtree - length base_tree) subtree) base_tree
