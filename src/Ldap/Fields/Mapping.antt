-- ===== src/Ldap/Fields/Mapping.antt =====
-- The attribute map: names are found in any case, and the latest registration of a name wins.
use klldap.Base.{
  ◌≡◌, refl, sym, ap, ◌∙◌, ◌≢◌, Bool, not, some, Option, ◌||◌, List, [], ◌∷◌, arith, any,
  if◌then◌else◌, Bool-cases, inl, inr,
}
use klldap.Text.{Str, str_eq, to_ascii_lowercase}
use klldap.Text.Case.{to_ascii_lowercase_idem, str_eq_iff, str_eq_refl}
use klldap.Schema.{Schema}
use klldap.Domain.{AttributeName}
use klldap.Ldap.Fields.{
  LogicalAttr, GroupFieldType, AttributeMap, get, register_aliases, register, resolve_attribute,
  map_group_field,
}

-- Looking up does not depend on the case of the name.
pub resolve_attribute-lowercase :
    (m : AttributeMap) (name : Str)
    → resolve_attribute m (to_ascii_lowercase name) ≡ resolve_attribute m name
unfolding resolve_attribute
resolve_attribute-lowercase m name = ap (get m) (to_ascii_lowercase_idem name)

-- Some alias is the key once it is in lower case.
abbrev pub is_alias : Str → List Str → Bool
is_alias key aliases = any (λ alias. str_eq (to_ascii_lowercase alias) key) aliases

module _ (logical : LogicalAttr) (canonical : Str) where
  abbrev entry : Option (LogicalAttr × Str)
  entry = some (logical, canonical)

  -- The map after one round of the loop over the aliases.
  abbrev add_alias : Str → AttributeMap → AttributeMap
  add_alias alias m =
      if not (str_eq (to_ascii_lowercase alias) (to_ascii_lowercase canonical))
      then (to_ascii_lowercase alias, logical, canonical) ∷ m
      else m

  get-add_alias :
      (alias : Str) (m : AttributeMap) (key : Str)
      → get m (to_ascii_lowercase canonical) ≡ entry
      → get (add_alias alias m) key
        ≡ (if str_eq (to_ascii_lowercase alias) key then entry else get m key)
  unfolding get
  get-add_alias alias m key known =
      elim (Bool-cases (str_eq (to_ascii_lowercase alias) (to_ascii_lowercase canonical))) [
        | inr new ↦ rw new
        | inl old ↦ elim (Bool-cases (str_eq (to_ascii_lowercase alias) key)) [
          | inr other ↦ rw (old, other)
          | inl hit ↦
              let same : key ≡ to_ascii_lowercase canonical =
                sym ((str_eq_iff _ _).0 hit) ∙ (str_eq_iff _ _).0 old in
              rw (old, hit) (ap (get m) same ∙ known)
        ]
      ]

  get-register_aliases :
      (aliases : List Str) (m : AttributeMap) (key : Str)
      → get m (to_ascii_lowercase canonical) ≡ entry
      → get (register_aliases logical canonical aliases m) key
        ≡ (if is_alias key aliases then entry else get m key)
  unfolding register_aliases
  get-register_aliases [] m key known = refl
  get-register_aliases (alias ∷ aliases) m key known =
      let still : get (add_alias alias m) (to_ascii_lowercase canonical) ≡ entry =
        get-add_alias alias m (to_ascii_lowercase canonical) known ∙ ground (arith, known) in
      get-register_aliases aliases (add_alias alias m) key still
      ∙ ground (arith, get-add_alias alias m key known)

-- After registering an attribute its canonical name and its aliases, in any case, resolve to it, and
-- every other name resolves as before.
pub resolve_attribute-register :
    (logical : LogicalAttr) (canonical : Str) (aliases : List Str) (m : AttributeMap) (name : Str)
    → resolve_attribute (register logical canonical aliases m) name ≡ (
        if str_eq (to_ascii_lowercase canonical) (to_ascii_lowercase name)
          || is_alias (to_ascii_lowercase name) aliases
        then some (logical, canonical)
        else resolve_attribute m name)
unfolding resolve_attribute register get
resolve_attribute-register logical canonical aliases m name =
    let key = to_ascii_lowercase name in
    let known : get ((to_ascii_lowercase canonical, logical, canonical) ∷ m)
          (to_ascii_lowercase canonical)
        ≡ some (logical, canonical) =
      rw (str_eq_refl (to_ascii_lowercase canonical)) in
    get-register_aliases logical canonical aliases _ key known ∙ ground arith

-- No attribute name is mapped to the numeric group id.
pub map_group_field-ne-group_id :
    {P : Type 0} (m : AttributeMap) (field : AttributeName) (schema : Schema P)
    → map_group_field m field schema ≢ GroupFieldType.group_id
unfolding map_group_field
map_group_field-ne-group_id m field schema = ground arith
