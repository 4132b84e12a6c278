-- ===== src/Ldap/Dn/Roundtrip.antt =====
-- The names built for users and groups are recognised as that user or group again.
use klldap.Base.{◌++◌, refl, ◌≡◌, ◌≢◌, ap, ◌∙◌, [], ◌∷◌, map, reverse, ok, err, if◌then◌else◌}
use klldap.Text.{Str, codes, to_ascii_lowercase}
use klldap.Text.Trim.{IsLower}
use klldap.Domain.{GroupName}
use klldap.Auth.{UserId, user_id}
use klldap.Ldap.Error.{LdapResultCode}
use klldap.Ldap.Ou.{Rdn, DnParts, ou_chain}
use klldap.Ldap.Ou.Chain.{components}
use klldap.Ldap.Dn.{
  user, group, unexpected_format, format_dn, build_user_dn, build_group_dn, is_user_ou,
  get_user_or_group_id_from_distinguished_name, get_user_id_from_distinguished_name,
  into_ldap_error,
}
use klldap.Ldap.Dn.Format.{
  IsPlainText, lower_rdn, build_user_dn-eq-format_dn, build_group_dn-eq-format_dn,
}
use klldap.Ldap.Dn.Names.{
  outermost, IsPlace, primary-outermost, classify_parts-built, classify_parts-built_in_ou,
  recognise, is_ou-uid, is_ou-cn, classify_rdn-uid, classify_rdn-cn, IsPlainText-uid,
  IsPlainText-cn,
}

module _ (ou : Str) (b : Rdn) (base : DnParts) (place : IsPlace ou (b ∷ base)) where
  abbrev tree : DnParts
  tree = b ∷ base

  pub recognise-user :
      (u : UserId)
      → IsPlainText u.text
      → ou_chain tree ≡ []
      → get_user_or_group_id_from_distinguished_name (build_user_dn u ou (format_dn tree)) tree
        ≡ user (user_id u.text)
  recognise-user u plain none_in_base =
      ap (λ t. get_user_or_group_id_from_distinguished_name t tree)
        (build_user_dn-eq-format_dn ou b base u)
      ∙ recognise (codes "uid", u.text) ou tree place (IsPlainText-uid, plain)
      ∙ classify_parts-built (lower_rdn (codes "uid", u.text))
          (map to_ascii_lowercase (reverse (components ou))) tree (is_ou-uid u.text) none_in_base
      ∙ classify_rdn-uid u.text _

  recognise-user_in_ou :
      (u : UserId)
      → IsPlainText u.text
      → ou_chain tree ≢ []
      → get_user_or_group_id_from_distinguished_name (build_user_dn u ou (format_dn tree)) tree
        ≡ unexpected_format
  recognise-user_in_ou u plain some_in_base =
      ap (λ t. get_user_or_group_id_from_distinguished_name t tree)
        (build_user_dn-eq-format_dn ou b base u)
      ∙ recognise (codes "uid", u.text) ou tree place (IsPlainText-uid, plain)
      ∙ classify_parts-built_in_ou (lower_rdn (codes "uid", u.text))
          (map to_ascii_lowercase (reverse (components ou))) tree (is_ou-uid u.text) some_in_base

  pub recognise-group :
      (g : GroupName)
      → IsPlainText g.text
      → ou_chain tree ≡ []
      → get_user_or_group_id_from_distinguished_name (build_group_dn g ou (format_dn tree)) tree ≡ (
          if is_user_ou (outermost (components ou))
          then user (user_id g.text)
          else group (record { text = to_ascii_lowercase g.text }))
  recognise-group g plain none_in_base =
      ap (λ t. get_user_or_group_id_from_distinguished_name t tree)
        (build_group_dn-eq-format_dn ou b base g)
      ∙ recognise (codes "cn", g.text) ou tree place (IsPlainText-cn, plain)
      ∙ classify_parts-built (lower_rdn (codes "cn", g.text))
          (map to_ascii_lowercase (reverse (components ou))) tree (is_ou-cn g.text) none_in_base
      ∙ classify_rdn-cn g.text _
      ∙ ap
          (λ t.
            if is_user_ou t
            then user (user_id g.text)
            else group (record { text = to_ascii_lowercase g.text }))
          (primary-outermost (components ou))

-- The name built for a user, at any depth of units, is read as that user: the user name is plain
-- and in lower case, the components of the unit are plain, and the base is clean with no unit.
pub get_user_id-build_user_dn :
    (u : UserId) (ou : Str) (b : Rdn) (base : DnParts)
    → IsPlainText u.text
    → IsLower u.text
    → IsPlace ou (b ∷ base)
    → ou_chain (b ∷ base) ≡ []
    → get_user_id_from_distinguished_name
        (build_user_dn u ou (format_dn (b ∷ base)))
        (b ∷ base)
        (format_dn (b ∷ base))
      ≡ ok u
unfolding get_user_id_from_distinguished_name user_id
get_user_id-build_user_dn u ou b base plain low place none_in_base =
    rw (recognise-user ou b base place u plain none_in_base)
      (ap (λ t. ok (record { text = t })) low)

-- The name built for a group is read as that group, in lower case, if the outermost component of its
-- unit is neither `people` nor missing; otherwise it is read as a user. The name of the group and the
-- components of the unit are plain, and the base is clean with no unit.
pub get_user_or_group_id-build_group_dn :
    (g : GroupName) (ou : Str) (b : Rdn) (base : DnParts)
    → IsPlainText g.text
    → IsPlace ou (b ∷ base)
    → ou_chain (b ∷ base) ≡ []
    → get_user_or_group_id_from_distinguished_name
        (build_group_dn g ou (format_dn (b ∷ base)))
        (b ∷ base)
      ≡ (if is_user_ou (outermost (components ou))
          then user (user_id g.text)
          else group (record { text = to_ascii_lowercase g.text }))
get_user_or_group_id-build_group_dn g ou b base plain place none_in_base =
    recognise-group ou b base place g plain none_in_base

-- If the base itself holds a unit, the name built for a user is refused with the error of an unexpected
-- format, which has the name and the format that is wanted in its message. The user name and the
-- components of the unit are plain, and the base is clean.
pub get_user_id-build_user_dn_in_ou :
    (u : UserId) (ou : Str) (b : Rdn) (base : DnParts)
    → IsPlainText u.text
    → IsPlace ou (b ∷ base)
    → ou_chain (b ∷ base) ≢ []
    → get_user_id_from_distinguished_name
        (build_user_dn u ou (format_dn (b ∷ base)))
        (b ∷ base)
        (format_dn (b ∷ base))
      ≡ err record {
        code = LdapResultCode.invalid_dn_syntax;
        message =
            codes "Unexpected DN format. Got \""
            ++ (build_user_dn u ou (format_dn (b ∷ base))
                ++ (codes "\", expected: "
                    ++ (codes "\"uid=id,ou=...," ++ (format_dn (b ∷ base) ++ codes "\""))));
      }
unfolding get_user_id_from_distinguished_name into_ldap_error
get_user_id-build_user_dn_in_ou u ou b base plain place some_in_base =
    rw (recognise-user_in_ou ou b base place u plain some_in_base) refl
