-- ===== src/Ldap/Wildcards/Laws.antt =====
-- What the expanded attributes hold.
use klldap.Base.{
  ◌≡◌, refl, ap, ◌∙◌, Bool, false, not, ◌&&◌, ◌||◌, List, [], ◌∷◌, any, arith, Bool-cases, inl, inr,
}
use klldap.Text.{Str, codes, str_eq, to_ascii_lowercase}
use klldap.Text.Case.{str_eq-eq}
use klldap.Schema.{Schema}
use klldap.Domain.{AttributeName, attribute_name}
use klldap.Ldap.Fields.{AttributeMap, one_of}
use klldap.Ldap.Wildcards.{
  AttributeKeys, insert, insert_names, always_operational, ignore_on_plus, all_attributes,
  standard_keys, operational_keys, has_star, has_plus, requested_names, attribute_keys,
  expand_attribute_wildcards,
}
use klldap.Ldap.Wildcards.Keys.{
  names, names_standard, names_operational, names-push_new, names-retain, names-retain_all_unseen,
  names-collect_standard, names-listed_operational, names-not_ignored,
}

-- `BTreeMap::contains_key`.
abbrev pub contains_key : Str → AttributeKeys → Bool
contains_key key m = any (λ e. str_eq e.0.text key) m

contains_key-insert :
    (key : Str) (name : AttributeName) (value : Str) (m : AttributeKeys)
    → contains_key key (insert name value m) ≡ (str_eq name.text key || contains_key key m)
unfolding insert
contains_key-insert key name value [] = refl
contains_key-insert key name value ((k, v) ∷ m) = elim (Bool-cases (str_eq name.text k.text)) [
  | inr other ↦ ground (arith, other, contains_key-insert key name value m)
  | inl same ↦
      let also : str_eq name.text key ≡ str_eq k.text key =
        ap (λ s. str_eq s key) (str_eq-eq name.text k.text same) in
      ground (arith, same, also)
]

contains_key-insert_names :
    (key : Str) (xs : List Str) (m : AttributeKeys)
    → contains_key key (insert_names xs m) ≡ (contains_key key m || names key xs)
unfolding insert_names attribute_name
contains_key-insert_names key [] m = ground arith
contains_key-insert_names key (s ∷ xs) m =
    contains_key-insert_names key xs _
    ∙ ground (arith, contains_key-insert key (attribute_name s) s m)

-- The names that `*` and `+` stand for, in words of the schema: `objectClass` and the attributes that
-- are neither operational nor of the fixed list of operational names.
abbrev pub is_standard_name : {P : Type 0} → AttributeMap → Schema P → Str → Bool
is_standard_name manager schema key =
    str_eq (to_ascii_lowercase (codes "objectClass")) key
    || (names_standard manager key (all_attributes schema) && not (one_of key always_operational))

-- The names that `+` adds: those of the fixed list and the operational attributes.
abbrev pub is_operational_name : {P : Type 0} → AttributeMap → Schema P → Str → Bool
is_operational_name manager schema key =
    one_of key always_operational || names_operational manager key (all_attributes schema)

module _ {P : Type 0} (manager : AttributeMap) (schema : Schema P) where
  names-standard_keys :
      (key : Str) → names key (standard_keys manager schema) ≡ is_standard_name manager schema key
  unfolding standard_keys
  names-standard_keys key =
      names-retain_all_unseen key _
      ∙ (names-push_new key (codes "objectClass") _
          ∙ (rw (names-retain (λ k. not (one_of k always_operational)) key)
              (elim (Bool-cases (one_of key always_operational)) [
                | inl listed ↦ rw listed (ground arith)
                | inr free ↦
                    rw (names-collect_standard manager key (all_attributes schema) [] free)
                      (ground arith)
              ])))

  names-operational_keys :
      (key : Str)
      → one_of key ignore_on_plus ≡ false
      → names key (operational_keys manager schema) ≡ is_operational_name manager schema key
  unfolding operational_keys
  names-operational_keys key free =
      names-not_ignored key _ free
      ∙ (names-retain_all_unseen key _
          ∙ names-listed_operational manager key (all_attributes schema))

  -- For a field outside the names that `+` ignores, the expanded attributes hold it exactly when it is
  -- the canonical name of an attribute asked for by name, or `*`, `+` or an empty list was given and it
  -- is `objectClass` or a schema attribute that is not operational, or `+` was given and it is one of
  -- the eleven fixed operational names or an operational attribute of the schema.
  pub expand_attribute_wildcards-contains_key :
      (ldap_attributes : List Str) (key : Str)
      → one_of key ignore_on_plus ≡ false
      → contains_key key (expand_attribute_wildcards manager ldap_attributes schema).attribute_keys
        ≡ (names key (requested_names manager ldap_attributes)
            || ((has_star ldap_attributes || has_plus ldap_attributes)
                && is_standard_name manager schema key)
            || (has_plus ldap_attributes && is_operational_name manager schema key))
  unfolding expand_attribute_wildcards attribute_keys
  expand_attribute_wildcards-contains_key ldap_attributes key free =
      let named = insert_names (requested_names manager ldap_attributes) [] in
      ground (
        arith,
        contains_key-insert_names key (requested_names manager ldap_attributes) [],
        contains_key-insert_names key (standard_keys manager schema) named,
        contains_key-insert_names key (operational_keys manager schema) named,
        contains_key-insert_names key (operational_keys manager schema)
            (insert_names (standard_keys manager schema) named),
        names-standard_keys key,
        names-operational_keys key free,
      )
