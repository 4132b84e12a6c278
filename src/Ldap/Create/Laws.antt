-- ===== src/Ldap/Create/Laws.antt =====
-- What an addition that is answered with success created.
use klldap.Base.{◌≡◌, refl, sym, ◌∙◌, subst, inl, inr, ◌⊎◌, List, Result, ok, err}
use klldap.Text.{Str, codes}
use klldap.Auth.{UserId}
use klldap.Domain.{CreateUserRequest, CreateGroupRequest, GroupId, GroupName}
use klldap.Domain.Deserialize.{Parsers}
use klldap.Ldap.Ou.{get_internal_ou_from_dn_parts, DnParts}
use klldap.Ldap.Dn.{
  UserOrGroupName, user, group, parse_distinguished_name,
  get_user_or_group_id_from_distinguished_name,
}
use klldap.Ldap.Filter.{LdapInfo}
use klldap.Ldap.Scope.{LdapPartialAttribute}
use klldap.Ldap.World.{done, call, World, LdapOp}
use klldap.Ldap.World.Laws.{>>=-done, from_result-done}
use klldap.Ldap.Create.Request.{create_group_request, parse_attributes}
use klldap.Ldap.Create.Unit.{IsInOu, create_user_request-IsInOu, create_group_request-IsInOu}
use klldap.Ldap.Create.{
  LdapAddRequest, lift, not_created, requested, map_of, create_user, create_group, create_named,
  create_user_or_group,
}

lift-done :
    {S E A : Type 0} (r : Result E A) (s : S) {a : A} {s' : S}
    → lift r s ≡ (done a, s')
    → (r ≡ ok a) × (s ≡ s')
lift-done (ok a) s h = (cc h, cc h)
lift-done (err e) s h = cc h

-- The unit that the name of an addition stands for, if the name parses.
abbrev pub UnitOf : Str → Str → Type 0
UnitOf dn ou =
    (parts : DnParts) × (parse_distinguished_name dn ≡ ok parts)
    × (ou ≡ get_internal_ou_from_dn_parts parts)

module _ {S D O : Type 0} (w : World S D O) (ldap_info : LdapInfo) (parsers : Parsers D) where
  -- The back end was asked for one user, or for one group, and took it.
  abbrev pub CreatedUser : UserId → Str → S → Type 0
  CreatedUser user_id ou s =
      (wanted : CreateUserRequest D) × (s₁ : S) × (w.create_user wanted s ≡ (ok tt, s₁))
      × (wanted.user_id ≡ user_id)
      × IsInOu ou wanted.attributes

  abbrev pub CreatedGroup : GroupName → Str → S → Type 0
  CreatedGroup name ou s =
      (wanted : CreateGroupRequest D) × (id : GroupId) × (s₁ : S) × (w.create_group wanted s
        ≡ (ok id, s₁))
      × (wanted.display_name ≡ name)
      × IsInOu ou wanted.attributes

  create_user-done :
      (user_id : UserId) (attributes : List LdapPartialAttribute) (internal_ou : Str) (s : S)
      {ops : List LdapOp} {s' : S}
      → create_user w ldap_info parsers user_id attributes internal_ou s ≡ (done ops, s')
      → CreatedUser user_id internal_ou s
  unfolding create_user
  create_user-done user_id attributes internal_ou s h =
      let (entries, s₁, parsed, h₁) = >>=-done (lift (parse_attributes attributes)) _ s h in
      let attribute_map = map_of w ldap_info parsers entries internal_ou in
      let (wanted, s₂, built, h₂) =
        >>=-done (lift (requested w ldap_info parsers user_id attribute_map internal_ou)) _ s₁ h₁ in
      let (created, s₃, called, h₃) =
        >>=-done (call (not_created w ldap_info parsers (codes "user")) (w.create_user wanted.0)) _
          s₂ h₂ in
      let (made, here) = lift-done _ s₁ built in
      let (for_user, in_ou) =
        create_user_request-IsInOu parsers w.from_utf8 w.debug_utf8_error w.as_bytes user_id
          attribute_map internal_ou made in
      let unmoved : s₂ ≡ s = sym ((lift-done _ s parsed).1 ∙ here) in
      (
        wanted.0,
        s₃,
        subst (λ t. w.create_user wanted.0 t ≡ (ok tt, s₃)) unmoved (from_result-done _ _ called),
        for_user,
        in_ou,
      )

  create_group-done :
      (name : GroupName) (internal_ou : Str) (s : S) {ops : List LdapOp} {s' : S}
      → create_group w ldap_info parsers name internal_ou s ≡ (done ops, s')
      → CreatedGroup name internal_ou s
  unfolding create_group
  create_group-done name internal_ou s h =
      let (wanted, s₁, built, h₁) =
        >>=-done
          (lift (
            create_group_request parsers w.from_utf8 w.debug_utf8_error w.as_bytes name
              internal_ou))
          _ s h in
      let (id, s₂, called, h₂) =
        >>=-done (call (not_created w ldap_info parsers (codes "group")) (w.create_group wanted)) _
          s₁ h₁ in
      let (made, here) = lift-done _ s built in
      let (for_group, in_ou) =
        create_group_request-IsInOu parsers w.from_utf8 w.debug_utf8_error w.as_bytes name
          internal_ou made in
      (
        wanted,
        id,
        s₂,
        subst (λ t. w.create_group wanted t ≡ (ok id, s₂)) (sym here) (from_result-done _ _ called),
        for_group,
        in_ou,
      )

  create_named-done :
      (name : UserOrGroupName) (request : LdapAddRequest) (internal_ou : Str) (s : S)
      {ops : List LdapOp} {s' : S}
      → create_named w ldap_info parsers name request internal_ou s ≡ (done ops, s')
      → ((user_id : UserId) × (name ≡ user user_id) × CreatedUser user_id internal_ou s)
        ⊎ ((g : GroupName) × (name ≡ group g) × CreatedGroup g internal_ou s)
  create_named-done (user user_id) request internal_ou s h =
      inl (user_id, refl, create_user-done user_id request.attributes internal_ou s h)
  create_named-done (group g) request internal_ou s h =
      inr (g, refl, create_group-done g internal_ou s h)
  create_named-done UserOrGroupName.bad_sub_stree request internal_ou s h = cc h
  create_named-done (UserOrGroupName.invalid_syntax e) request internal_ou s h = cc h
  create_named-done UserOrGroupName.unexpected_format request internal_ou s h = cc h

-- An addition that is answered with success made the back end create, in the state before, what the name
-- stands for: the user, or the group, of that name, stored in the unit of the name. The unit that a
-- look-up in the stored attributes finds is that of the name, whatever `ou` the client sent.
pub create_user_or_group-done :
    {S D O : Type 0} (w : World S D O) (ldap_info : LdapInfo) (parsers : Parsers D)
    (request : LdapAddRequest) (s : S) (ops : List LdapOp) (s' : S)
    → create_user_or_group w ldap_info parsers request s ≡ (done ops, s')
    → (ou : Str) × UnitOf request.dn ou
      × (((user_id : UserId) × (get_user_or_group_id_from_distinguished_name request.dn
                ldap_info.base_dn
              ≡ user user_id)
            × CreatedUser w ldap_info parsers user_id ou s)
          ⊎ ((g : GroupName) × (get_user_or_group_id_from_distinguished_name request.dn
                  ldap_info.base_dn
                ≡ group g)
              × CreatedGroup w ldap_info parsers g ou s))
unfolding create_user_or_group
create_user_or_group-done w ldap_info parsers request s ops s' h =
    let (parts, s₁, parsed, rest) = >>=-done (lift (parse_distinguished_name request.dn)) _ s h in
    let (parses, here) = lift-done _ s parsed in
    let ou = get_internal_ou_from_dn_parts parts in
    (
      ou,
      (parts, parses, refl),
      create_named-done w ldap_info parsers
          (get_user_or_group_id_from_distinguished_name request.dn ldap_info.base_dn) request ou s
          (subst
            (λ t.
              create_named w ldap_info parsers
                (get_user_or_group_id_from_distinguished_name request.dn ldap_info.base_dn) request
                ou t
              ≡ (done ops, s'))
            (sym here) rest),
    )
