-- ===== src/Ldap/Create/Unit.antt =====
-- The unit of what an addition asks for.
use klldap.Base.{
  ℕ, ◌≡◌, refl, sym, subst, ap, Bool, false, Option, none, some, List, [], ◌∷◌, ◌++◌, Result, ok,
  err, >>=-eq-ok, ok_injective,
}
use klldap.Text.{Str, codes, lower, to_ascii_lowercase, eq_ignore_ascii_case}
use klldap.Auth.{UserId}
use klldap.Schema.{AttributeType}
use klldap.Domain.{
  Attribute, attribute_name, AttributeValue, singleton, CreateUserRequest, CreateGroupRequest,
  GroupName,
}
use klldap.Domain.Deserialize.{Parsers, deserialize_attribute_value}
use klldap.Ldap.Error.{LdapResult}
use klldap.Ldap.Attributes.{get_ou_from_attributes}
use klldap.Ldap.Create.Request.{
  HashMap, get, pushed, new_user_attributes, named_value, attribute_of, ou_attribute, text_of,
  or_else, kerberossync, create_user_request, create_group_request,
}

-- The unit that a look-up in the attributes finds, whatever the default.
abbrev pub IsInOu : {D : Type 0} → Str → List (Attribute D) → Type 0
IsInOu ou attributes = (default : Str) → get_ou_from_attributes attributes default ≡ ou

-- An attribute under another name, and the one under the name `ou`.
skip_one :
    {D : Type 0} (a : Attribute D) (name : Str) (rest : List (Attribute D)) (ou : Str)
    → a.name ≡ attribute_name name
    → eq_ignore_ascii_case (attribute_name name).text (codes "ou") ≡ false
    → IsInOu ou rest
    → IsInOu ou (a ∷ rest)
unfolding get_ou_from_attributes
skip_one a name rest ou named differs there default = rw (named, differs) (there default)

abbrev ou_of : {D : Type 0} → Str → Attribute D
ou_of ou = record {
  name = attribute_name (codes "ou");
  value = AttributeValue.string (singleton ou);
}

ou_of-IsInOu : {D : Type 0} (ou : Str) (rest : List (Attribute D)) → IsInOu ou (ou_of ou ∷ rest)
unfolding get_ou_from_attributes attribute_name to_ascii_lowercase lower eq_ignore_ascii_case
ou_of-IsInOu ou rest default = refl

named_value-name :
    {D : Type 0} (name label : Str) (r : Result Str (AttributeValue D)) {a : Attribute D}
    → named_value name label r ≡ ok a
    → a.name ≡ attribute_name name
named_value-name name label (ok value) e = cc e
named_value-name name label (err m) e = cc e

first_name_elsewhere :
    eq_ignore_ascii_case (attribute_name (codes "first_name")).text (codes "ou") ≡ false
unfolding attribute_name to_ascii_lowercase lower eq_ignore_ascii_case
first_name_elsewhere = refl

last_name_elsewhere :
    eq_ignore_ascii_case (attribute_name (codes "last_name")).text (codes "ou") ≡ false
unfolding attribute_name to_ascii_lowercase lower eq_ignore_ascii_case
last_name_elsewhere = refl

avatar_elsewhere : eq_ignore_ascii_case (attribute_name (codes "avatar")).text (codes "ou") ≡ false
unfolding attribute_name to_ascii_lowercase lower eq_ignore_ascii_case
avatar_elsewhere = refl

module _ {D : Type 0} (parsers : Parsers D) (from_utf8 : List ℕ → Option Str)
    (debug_utf8_error : List ℕ → Str) (as_bytes : Str → List ℕ) where
  pushed-skipped :
      (name : Str) (typ : AttributeType) (o : Option Str) (l rest : List (Attribute D)) (ou : Str)
      → eq_ignore_ascii_case (attribute_name name).text (codes "ou") ≡ false
      → pushed parsers from_utf8 debug_utf8_error as_bytes name typ o ≡ ok l
      → IsInOu ou rest
      → IsInOu ou (l ++ rest)
  pushed-skipped name typ none l rest ou differs e there =
      subst (λ k. IsInOu ou (k ++ rest)) {x = []} {y = l} (cc e) there
  pushed-skipped name typ (some text) l rest ou differs e there =
      let (a, made, listed) =
        >>=-eq-ok (attribute_of parsers from_utf8 debug_utf8_error as_bytes name name typ text) _
          e in
      subst (λ k. IsInOu ou (k ++ rest)) {x = a ∷ []} {y = l} (cc listed)
        (skip_one a name rest ou
          (named_value-name name name (deserialize_attribute_value parsers (text ∷ []) typ false)
            made)
          differs there)

  ou_attribute_lem :
      (ou : Str) → ou_attribute parsers from_utf8 debug_utf8_error as_bytes ou ≡ ok (ou_of ou)
  unfolding deserialize_attribute_value
  ou_attribute_lem ou = refl

  abbrev text : Option (List ℕ) → LdapResult (Option Str)
  text o = text_of parsers from_utf8 debug_utf8_error as_bytes o

  abbrev push : Str → AttributeType → Option Str → LdapResult (List (Attribute D))
  push name typ o = pushed parsers from_utf8 debug_utf8_error as_bytes name typ o

  -- The unit stands behind the names and the avatar.
  found_behind :
      (given sn image : Option Str) (first_name last_name avatar : List (Attribute D))
      (ou : Attribute D) (rest : List (Attribute D)) (internal_ou : Str)
      → push (codes "first_name") AttributeType.string given ≡ ok first_name
      → push (codes "last_name") AttributeType.string sn ≡ ok last_name
      → push (codes "avatar") AttributeType.avatar image ≡ ok avatar
      → ou_attribute parsers from_utf8 debug_utf8_error as_bytes internal_ou ≡ ok ou
      → IsInOu internal_ou (first_name ++ (last_name ++ (avatar ++ (ou ∷ rest))))
  found_behind given sn image first_name last_name avatar ou rest internal_ou e₁ e₂ e₃ e₄ =
      let its_ou : ou_of internal_ou ≡ ou = ok_injective (ou_attribute_lem internal_ou) e₄ in
      pushed-skipped (codes "first_name") AttributeType.string given first_name _ internal_ou
        first_name_elsewhere e₁
        (pushed-skipped (codes "last_name") AttributeType.string sn last_name _ internal_ou
          last_name_elsewhere e₂
          (pushed-skipped (codes "avatar") AttributeType.avatar image avatar _ internal_ou
            avatar_elsewhere e₃
            (subst (λ o. IsInOu internal_ou (o ∷ rest)) its_ou (ou_of-IsInOu internal_ou rest))))

  new_user_attributes-IsInOu :
      (attributes : HashMap) (internal_ou : Str) {made : List (Attribute D) × Bool}
      → new_user_attributes parsers from_utf8 debug_utf8_error as_bytes attributes internal_ou
        ≡ ok made
      → IsInOu internal_ou made.0
  unfolding new_user_attributes
  new_user_attributes-IsInOu attributes internal_ou {made} h =
      let (given, _, h₁) = >>=-eq-ok (text (get (codes "givenname") attributes)) _ h in
      let (first_name, e₁, h₂) =
        >>=-eq-ok (push (codes "first_name") AttributeType.string given) _ h₁ in
      let (sn, _, h₃) = >>=-eq-ok (text (get (codes "sn") attributes)) _ h₂ in
      let (last_name, e₂, h₄) = >>=-eq-ok (push (codes "last_name") AttributeType.string sn) _ h₃ in
      let (image, _, h₅) =
        >>=-eq-ok
          (text (or_else (get (codes "avatar") attributes) (get (codes "jpegphoto") attributes))) _
          h₄ in
      let (avatar, e₃, h₆) = >>=-eq-ok (push (codes "avatar") AttributeType.avatar image) _ h₅ in
      let (ou, e₄, h₇) =
        >>=-eq-ok (ou_attribute parsers from_utf8 debug_utf8_error as_bytes internal_ou) _ h₆ in
      let (ksync_str, _, h₈) = >>=-eq-ok (text (get (codes "kerberossync") attributes)) _ h₇ in
      let (kept, _, h₉) =
        >>=-eq-ok (kerberossync parsers from_utf8 debug_utf8_error as_bytes ksync_str) _ h₈ in
      subst (λ m. IsInOu internal_ou m.0) {y = made} (ok_injective refl h₉)
        (found_behind given sn image first_name last_name avatar ou (kept.0 ∷ []) internal_ou e₁ e₂
          e₃ e₄)

  pub create_user_request-IsInOu :
      (user_id : UserId) (attributes : HashMap) (internal_ou : Str)
      {wanted : CreateUserRequest D × Bool}
      → create_user_request parsers from_utf8 debug_utf8_error as_bytes user_id attributes
          internal_ou
        ≡ ok wanted
      → (wanted.0.user_id ≡ user_id) × IsInOu internal_ou wanted.0.attributes
  unfolding create_user_request
  create_user_request-IsInOu user_id attributes internal_ou {wanted} h =
      let (made, e₁, h₁) =
        >>=-eq-ok
          (new_user_attributes parsers from_utf8 debug_utf8_error as_bytes attributes internal_ou) _
          h in
      let (mail, _, h₂) =
        >>=-eq-ok (text (or_else (get (codes "mail") attributes) (get (codes "email") attributes)))
          _ h₁ in
      let (display_name, _, h₃) = >>=-eq-ok (text (get (codes "cn") attributes)) _ h₂ in
      let same = ok_injective refl h₃ in
      (
        sym (ap (λ p. p.0.user_id) same),
        subst (λ a. IsInOu internal_ou a) (ap (λ p. p.0.attributes) same)
            (new_user_attributes-IsInOu attributes internal_ou e₁),
      )

  pub create_group_request-IsInOu :
      (group_name : GroupName) (internal_ou : Str) {wanted : CreateGroupRequest D}
      → create_group_request parsers from_utf8 debug_utf8_error as_bytes group_name internal_ou
        ≡ ok wanted
      → (wanted.display_name ≡ group_name) × IsInOu internal_ou wanted.attributes
  unfolding create_group_request
  create_group_request-IsInOu group_name internal_ou {wanted} h =
      let (ou, e₁, h₁) =
        >>=-eq-ok (ou_attribute parsers from_utf8 debug_utf8_error as_bytes internal_ou) _ h in
      let same = ok_injective refl h₁ in
      (
        sym (ap (λ r. r.display_name) same),
        subst (λ a. IsInOu internal_ou a) (ap (λ r. r.attributes) same)
            (subst (λ o. IsInOu internal_ou (o ∷ []))
              (ok_injective (ou_attribute_lem internal_ou) e₁) (ou_of-IsInOu internal_ou [])),
      )
