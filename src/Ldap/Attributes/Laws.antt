-- ===== src/Ldap/Attributes/Laws.antt =====
-- The entries that a search returns: their attributes, and the members of a group.
use klldap.Base.{
  ◌≡◌, refl, ap, ◌∙◌, ◌||◌, arith, Bool, true, false, Option, none, some, List, [], ◌∷◌, map, any,
  retain, Bool-cases, inl, inr,
}
use klldap.Text.{Str, str_eq}
use klldap.Text.Case.{str_eq-eq}
use klldap.Auth.{UserId}
use klldap.Schema.{Schema}
use klldap.Domain.{AttributeName, User, Group, GroupDetails}
use klldap.Ldap.Dn.{build_user_dn}
use klldap.Ldap.Scope.{LdapPartialAttribute, LdapSearchResultEntry}
use klldap.Ldap.Fields.{AttributeMap, GroupFieldType, map_group_field}
use klldap.Ldap.Wildcards.{ExpandedAttributes}
use klldap.Ldap.Attributes.Values.{
  Conversions, present, insert_text, sorted_texts, member_values, unless_blank, group_value,
  get_group_attribute,
}
use klldap.Ldap.Attributes.Entry.{
  retain_new_types, entry_of, make_ldap_search_user_result_entry,
  make_ldap_search_group_result_entry,
}

-- No two attributes have the same type, nor one of those seen.
abbrev pub AreNew : List Str → List LdapPartialAttribute → Type 0
AreNew seen [] = Unit
AreNew seen (a ∷ attrs) = (any (λ t. str_eq t a.atype) seen ≡ false) × AreNew (a.atype ∷ seen) attrs

retain_new_types-AreNew :
    (seen : List Str) (attrs : List LdapPartialAttribute)
    → AreNew seen (retain_new_types seen attrs)
unfolding retain_new_types
retain_new_types-AreNew seen [] = tt
retain_new_types-AreNew seen (a ∷ attrs) = elim (Bool-cases (any (λ t. str_eq t a.atype) seen)) [
  | inl old ↦ rw old (retain_new_types-AreNew seen attrs)
  | inr new ↦ rw new (new, retain_new_types-AreNew (a.atype ∷ seen) attrs)
]

-- An entry, where there is one, has distinct types.
abbrev pub HasNewTypes : Option LdapSearchResultEntry → Type 0
HasNewTypes none = Unit
HasNewTypes (some entry) = AreNew [] entry.attributes

module _ {D P : Type 0} (c : Conversions D) (schema : Schema P) (base_dn_str : Str) where
  entry_of-HasNewTypes :
      (manager : AttributeMap) (dn structural_class : Str) (operational : Bool)
      (attrs : Option (List LdapPartialAttribute))
      → HasNewTypes (entry_of c manager schema base_dn_str dn structural_class operational attrs)
  entry_of-HasNewTypes manager dn structural_class operational none = tt
  entry_of-HasNewTypes manager dn structural_class operational (some attrs) =
      retain_new_types-AreNew [] _

  -- The entry that a search returns for a user names every attribute at most once, and so does the
  -- entry that it returns for a group.
  pub search_result_entries-HasNewTypes :
      (manager : AttributeMap) (expanded : ExpandedAttributes) (ignored : List AttributeName)
      → ((user : User D) (groups : Option (List (GroupDetails D)))
          → HasNewTypes (
              make_ldap_search_user_result_entry c manager schema base_dn_str user expanded groups
                ignored))
        × ((group : Group D) (user_filter : Option UserId)
            → HasNewTypes (
                make_ldap_search_group_result_entry c manager schema base_dn_str group expanded
                  user_filter ignored))
  unfolding make_ldap_search_user_result_entry make_ldap_search_group_result_entry
  search_result_entries-HasNewTypes manager expanded ignored = (
    λ user groups. entry_of-HasNewTypes manager _ _ _ _,
    λ group user_filter. entry_of-HasNewTypes manager _ _ _ _,
  )

module _ (p : Str → Bool) where
  any-insert_text : (s : Str) (ts : List Str) → any p (insert_text s ts) ≡ (p s || any p ts)
  unfolding insert_text
  any-insert_text s [] = refl
  any-insert_text s (t ∷ ts) = elim (Bool-cases (str_eq s t)) [
    | inl same ↦ let alike : p s ≡ p t = ap p (str_eq-eq s t same) in ground (arith, same, alike)
    | inr other ↦ ground (arith, other, any-insert_text s ts)
  ]

  any-sorted_texts : (ss : List Str) → any p (sorted_texts ss) ≡ any p ss
  unfolding sorted_texts
  any-sorted_texts [] = refl
  any-sorted_texts (s ∷ ss) =
      any-insert_text s (sorted_texts ss) ∙ ground (arith, any-sorted_texts ss)

any-map :
    {A B : Type 0} (p : B → Bool) (f : A → B) (xs : List A)
    → any p (map f xs) ≡ any (λ x. p (f x)) xs
any-map p f [] = refl
any-map p f (x ∷ xs) = ground (arith, any-map p f xs)

retain-all : {A : Type 0} (xs : List A) → retain (λ x. true) xs ≡ xs
retain-all [] = refl
retain-all (x ∷ xs) = ap (λ l. x ∷ l) (retain-all xs)

-- `member` and `uniqueMember`.
abbrev pub is_members : GroupFieldType → Bool
is_members GroupFieldType.member = true
is_members GroupFieldType.unique_member = true
is_members other = false

module _ {D P : Type 0} (c : Conversions D) (schema : Schema P) (base_dn_str : Str) where
  has_value-members :
      (group : Group D) (v : Str)
      → any (λ w. str_eq w v) (member_values c base_dn_str group none)
        ≡ any (λ u. str_eq (c.as_bytes (build_user_dn u.user_id u.ou base_dn_str)) v) group.users
  unfolding member_values
  has_value-members group v = rw (retain-all group.users) (
      any-map (λ w. str_eq w v) c.as_bytes _
      ∙ (any-sorted_texts (λ dn. str_eq (c.as_bytes dn) v) _ ∙ any-map _ _ group.users))

  -- Without a restriction to one user, as every search asks for them, the values of `member` and of
  -- `uniqueMember` are exactly the DNs of the members of the group: a text is among them if and only if it
  -- is the DN of a member, in the member's unit. (A single empty value would count as none.)
  pub get_group_attribute-members :
      (manager : AttributeMap) (group : Group D) (attribute : AttributeName)
      (ignored : List AttributeName)
      → is_members (map_group_field manager attribute schema) ≡ true
      → (vals : List Str) × (get_group_attribute c manager schema base_dn_str group attribute none
            ignored
          ≡ unless_blank (present vals))
        × ((v : Str)
            → any (λ w. str_eq w v) vals
              ≡ any
                  (λ u. str_eq (c.as_bytes (build_user_dn u.user_id u.ou base_dn_str)) v)
                  group.users)
  unfolding get_group_attribute
  get_group_attribute-members manager group attribute ignored members = (
    member_values c base_dn_str group none,
    by_field (map_group_field manager attribute schema) members,
    has_value-members group,
  )
    where
      by_field :
          (field : GroupFieldType)
          → is_members field ≡ true
          → unless_blank
              (group_value c manager schema base_dn_str group attribute none ignored field)
            ≡ unless_blank (present (member_values c base_dn_str group none))
      by_field GroupFieldType.member h = refl
      by_field GroupFieldType.unique_member h = refl
      by_field other h = ground (arith, h)
