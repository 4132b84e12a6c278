-- ===== src/Ldap/Wildcards.antt =====
-- crates/ldap/src/schema/manager.rs: `expand_attribute_wildcards`, which turns the attributes that a
-- search asks for, `*` and `+` included, into the map of the attributes to return. A set of texts is
-- the list of its elements; the `BTreeMap` is the list of its entries in the order of their keys.
pub mod Keys
pub mod Laws
pub mod Tests
use klldap.Base.{
  ℕ, String, Bool, true, false, not, ◌&&◌, ◌||◌, Option, none, some, List, [], ◌∷◌, ◌++◌, map, any,
  retain, leb, ◌==◌, if◌then◌else◌,
}
use klldap.Text.{Str, codes, str_eq, to_ascii_lowercase, eq_ignore_ascii_case, is_empty}
use klldap.Schema.{AttributeSchema, Schema}
use klldap.Domain.{AttributeName, attribute_name}
use klldap.Ldap.Fields.{
  LogicalAttr, AttributeMap, one_of, get_preferred_ldap_name, resolve_attribute, get_canonical_name,
  means_operational, is_operational,
}

-- `Ord` of `str`.
unfoldable pub str_lt : Str → Str → Bool
str_lt [] [] = false
str_lt [] (y ∷ t) = true
str_lt (x ∷ s) [] = false
str_lt (x ∷ s) (y ∷ t) = let rest = str_lt s t in if x == y then rest else leb x y

abbrev pub AttributeKeys : Type 0
AttributeKeys = List (AttributeName × Str)

-- `BTreeMap::insert`: a key that is there keeps its place and takes the new value.
unfoldable pub insert : AttributeName → Str → AttributeKeys → AttributeKeys
insert key value [] = (key, value) ∷ []
insert key value ((k, v) ∷ m) =
    let later = insert key value m in
    if str_eq key.text k.text
    then (k, value) ∷ m
    else if str_lt key.text k.text
    then (key, value) ∷ (k, v) ∷ m
    else (k, v) ∷ later

-- The loops that insert a name under its own lower-case form.
unfoldable pub insert_names : List Str → AttributeKeys → AttributeKeys
insert_names [] m = m
insert_names (s ∷ names) m = insert_names names (insert (attribute_name s) s m)

pub record ExpandedAttributes : Type 0 where
  pub attribute_keys : AttributeKeys
  pub include_custom_attributes : Bool
  pub include_operational_attributes : Bool

abbrev pub always_operational : List String
always_operational =
    "hassubordinates" ∷ "structuralobjectclass" ∷ "subschemasubentry" ∷ "createtimestamp"
    ∷ "modifytimestamp" ∷ "pwdchangedtime" ∷ "entryuuid" ∷ "entrydn" ∷ "memberof" ∷ "creatorsname"
    ∷ "modifiersname" ∷ []

abbrev pub ignore_on_plus : List String
ignore_on_plus =
    "attributetypes" ∷ "objectclasses" ∷ "matchingrules" ∷ "ldapsyntaxes" ∷ "matchingruleuse"
    ∷ "creatorsname" ∷ "modifiersname" ∷ "namingcontexts" ∷ "supportedcontrol"
    ∷ "supportedextension" ∷ "supportedfeatures" ∷ "supportedldapversion"
    ∷ "supportedsaslmechanisms" ∷ "vendorname" ∷ "vendorversion" ∷ "altserver" ∷ "ref" ∷ "queryid"
    ∷ []

-- The push under the guard that no key equals the name up to case.
unfoldable pub push_new : Str → List Str → List Str
push_new name keys =
    if any (λ k. eq_ignore_ascii_case k name) keys then keys else keys ++ (name ∷ [])

abbrev pub is_resolved : Option (LogicalAttr × Str) → Bool
is_resolved none = false
is_resolved (some r) = true

-- The test that sends an attribute of the schema to the operational keys.
abbrev pub goes_operational : AttributeMap → Str → Bool
goes_operational manager preferred =
    is_resolved (resolve_attribute manager preferred)
    && (means_operational (resolve_attribute manager preferred)
        || one_of (to_ascii_lowercase preferred) always_operational)

-- The loop over the attributes of the schema, for the standard and for the operational keys.
unfoldable pub collect_standard : AttributeMap → List AttributeSchema → List Str → List Str
collect_standard manager [] keys = keys
collect_standard manager (attr ∷ attrs) keys =
    let preferred = get_preferred_ldap_name attr in
    collect_standard manager attrs
      (if goes_operational manager preferred then keys else push_new preferred keys)

unfoldable pub collect_operational : AttributeMap → List AttributeSchema → List Str → List Str
collect_operational manager [] keys = keys
collect_operational manager (attr ∷ attrs) keys =
    let preferred = get_preferred_ldap_name attr in
    collect_operational manager attrs
      (if goes_operational manager preferred then push_new preferred keys else keys)

unfoldable pub push_names : List String → List Str → List Str
push_names [] keys = keys
push_names (name ∷ names) keys = push_names names (push_new (codes name) keys)

-- `retain` with the closure that inserts the lower-case text into the set `seen`.
unfoldable pub retain_unseen : List Str → List Str → List Str
retain_unseen seen [] = []
retain_unseen seen (k ∷ keys) =
    let lower = to_ascii_lowercase k in
    let old = any (λ t. str_eq t lower) seen in
    let rest = retain_unseen (if old then seen else lower ∷ seen) keys in
    if old then rest else k ∷ rest

abbrev pub all_attributes : {P : Type 0} → Schema P → List AttributeSchema
all_attributes schema = schema.user_attributes.attributes ++ schema.group_attributes.attributes

unfoldable pub standard_keys : {P : Type 0} → AttributeMap → Schema P → List Str
standard_keys manager schema = retain_unseen [] (
    push_new (codes "objectClass") (
      retain (λ k. not (one_of (to_ascii_lowercase k) always_operational))
        (collect_standard manager (all_attributes schema) [])))

unfoldable pub operational_keys : {P : Type 0} → AttributeMap → Schema P → List Str
operational_keys manager schema =
    retain (λ k. not (one_of k ignore_on_plus))
      (retain_unseen []
        (push_names always_operational (collect_operational manager (all_attributes schema) [])))

-- The filter on the attributes that are asked for by name.
abbrev pub is_named : Str → Bool
is_named s =
    let lower = to_ascii_lowercase s in
    not (one_of lower ("*" ∷ "+" ∷ "1.1" ∷ [])) && not (one_of lower ignore_on_plus)

abbrev pub has_star : List Str → Bool
has_star ldap_attributes =
    any (λ x. str_eq x (codes "*")) ldap_attributes || is_empty ldap_attributes

abbrev pub has_plus : List Str → Bool
has_plus ldap_attributes = any (λ x. str_eq x (codes "+")) ldap_attributes

abbrev pub requested_names : AttributeMap → List Str → List Str
requested_names manager ldap_attributes =
    map (get_canonical_name manager) (retain is_named ldap_attributes)

unfoldable pub attribute_keys : {P : Type 0} → AttributeMap → List Str → Schema P → AttributeKeys
attribute_keys manager ldap_attributes schema =
    let named = insert_names (requested_names manager ldap_attributes) [] in
    let standard =
      (if has_star ldap_attributes || has_plus ldap_attributes
        then insert_names (standard_keys manager schema) named
        else named) in
    if has_plus ldap_attributes
    then insert_names (operational_keys manager schema) standard
    else standard

unfoldable pub expand_attribute_wildcards :
    {P : Type 0} → AttributeMap → List Str → Schema P → ExpandedAttributes
expand_attribute_wildcards manager ldap_attributes schema =
    let keys = attribute_keys manager ldap_attributes schema in
    record {
      attribute_keys = keys;
      include_custom_attributes = has_star ldap_attributes || has_plus ldap_attributes;
      include_operational_attributes =
          has_plus ldap_attributes
          || any
              (λ e.
                is_operational manager e.0.text
                || one_of (to_ascii_lowercase e.0.text) always_operational)
              keys;
    }
