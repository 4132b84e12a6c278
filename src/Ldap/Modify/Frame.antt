-- ===== src/Ldap/Modify/Frame.antt =====
-- What a change of the profile can touch.
use klldap.Base.{◌≡◌, refl, subst, true, Bool-cases, inl, inr, List, [], ◌∷◌, All, Result, ok, err}
use klldap.Text.{Str, codes, str_eq, to_ascii_lowercase, lower}
use klldap.Auth.{UserId}
use klldap.Domain.{
  AttributeValue, attribute_name, AttributeName, User, DomainError, UpdateUserRequest,
}
use klldap.Domain.Deserialize.{Parsers, deserialize_attribute_value}
use klldap.Schema.{AttributeType}
use klldap.Ldap.Error.{LdapError}
use klldap.Ldap.World.{done, return}
use klldap.Ldap.World.Laws.{>>=-done}
use klldap.Ldap.Modify.Profile.{
  LdapModifyType, add, delete, replace, ProfileField, given_name, surname, common_name, mail,
  avatar, ssh_public_key, ou, unsupported, one_of, is_ssh_public_key, insert_value, insert_or_fail,
  insert_remaining, insert_keys, replace_field, add_field, delete_field, current_user, add_keys,
  delete_keys, profile_update,
}

abbrev pub profile_attributes : List Str
profile_attributes =
    codes "first_name" ∷ codes "last_name" ∷ codes "avatar" ∷ codes "sshpublickey" ∷ []

abbrev pub IsProfileName : AttributeName → Type 0
IsProfileName name = one_of name.text profile_attributes ≡ true

-- The request is for the user, and what it inserts and deletes are attributes of the list above.
abbrev pub IsWithinProfile : {D : Type 0} → UserId → UpdateUserRequest D → Type 0
IsWithinProfile user_id request =
    (request.user_id ≡ user_id)
    × All (λ a. IsProfileName a.name) request.insert_attributes
    × All IsProfileName request.delete_attributes

first_name_known : IsProfileName (attribute_name (codes "first_name"))
unfolding attribute_name to_ascii_lowercase lower str_eq
first_name_known = refl

last_name_known : IsProfileName (attribute_name (codes "last_name"))
unfolding attribute_name to_ascii_lowercase lower str_eq
last_name_known = refl

avatar_known : IsProfileName (attribute_name (codes "avatar"))
unfolding attribute_name to_ascii_lowercase lower str_eq
avatar_known = refl

keys_known : IsProfileName (attribute_name (codes "sshpublickey"))
unfolding attribute_name to_ascii_lowercase lower str_eq
keys_known = refl

module _ {S D : Type 0} (parsers : Parsers D) (user_id : UserId) where
  insert_or_fail-IsWithinProfile :
      (name label : Str) (value : Result Str (AttributeValue D)) (s : S) {r : UpdateUserRequest D}
      {s' : S}
      → IsProfileName (attribute_name name)
      → insert_or_fail parsers user_id name label value s ≡ (done r, s')
      → IsWithinProfile user_id r
  insert_or_fail-IsWithinProfile name label (ok value) s {r} known h =
      subst (IsWithinProfile user_id) {x = insert_value user_id name value} {y = r} (cc h)
        (refl, (known, tt), tt)
  insert_or_fail-IsWithinProfile name label (err e) s known h = cc h

  returned-IsWithinProfile :
      (request : UpdateUserRequest D) (s : S) {r : UpdateUserRequest D} {s' : S}
      → IsWithinProfile user_id request
      → return {E = LdapError} request s ≡ (done r, s')
      → IsWithinProfile user_id r
  returned-IsWithinProfile request s {r} within h =
      subst (IsWithinProfile user_id) {x = request} {y = r} (cc h) within

  insert_keys-IsWithinProfile :
      (keys : List Str) (s : S) {r : UpdateUserRequest D} {s' : S}
      → insert_keys parsers user_id keys s ≡ (done r, s')
      → IsWithinProfile user_id r
  insert_keys-IsWithinProfile keys s h =
      insert_or_fail-IsWithinProfile (codes "sshpublickey") (codes "sshPublicKey")
        (deserialize_attribute_value parsers keys AttributeType.string true) s keys_known h

  replace_field-IsWithinProfile :
      (field : ProfileField) (atype first : Str) (more : List Str) (s : S) {r : UpdateUserRequest D}
      {s' : S}
      → replace_field parsers user_id field atype first more s ≡ (done r, s')
      → IsWithinProfile user_id r
  replace_field-IsWithinProfile given_name atype first more s h =
      insert_or_fail-IsWithinProfile (codes "first_name") (codes "first_name") _ s first_name_known
        h
  replace_field-IsWithinProfile surname atype first more s h =
      insert_or_fail-IsWithinProfile (codes "last_name") (codes "last_name") _ s last_name_known h
  replace_field-IsWithinProfile common_name atype first more s h =
      returned-IsWithinProfile _ s (refl, tt, tt) h
  replace_field-IsWithinProfile mail atype first more s h =
      returned-IsWithinProfile _ s (refl, tt, tt) h
  replace_field-IsWithinProfile avatar atype first more s h =
      insert_or_fail-IsWithinProfile (codes "avatar") (codes "avatar") _ s avatar_known h
  replace_field-IsWithinProfile ssh_public_key atype first more s h =
      insert_keys-IsWithinProfile _ s h
  replace_field-IsWithinProfile ou atype first more s h = cc h
  replace_field-IsWithinProfile unsupported atype first more s h = cc h

  add_field-IsWithinProfile :
      (field : ProfileField) (atype first : Str) (more : List Str) (s : S) {r : UpdateUserRequest D}
      {s' : S}
      → add_field parsers user_id field atype first more s ≡ (done r, s')
      → IsWithinProfile user_id r
  add_field-IsWithinProfile given_name atype first more s h =
      insert_or_fail-IsWithinProfile (codes "first_name") (codes "first_name") _ s first_name_known
        h
  add_field-IsWithinProfile surname atype first more s h =
      insert_or_fail-IsWithinProfile (codes "last_name") (codes "last_name") _ s last_name_known h
  add_field-IsWithinProfile common_name atype first more s h =
      returned-IsWithinProfile _ s (refl, tt, tt) h
  add_field-IsWithinProfile mail atype first more s h =
      returned-IsWithinProfile _ s (refl, tt, tt) h
  add_field-IsWithinProfile avatar atype first more s h =
      insert_or_fail-IsWithinProfile (codes "avatar") (codes "avatar") _ s avatar_known h
  add_field-IsWithinProfile ssh_public_key atype first more s h = cc h
  add_field-IsWithinProfile ou atype first more s h = cc h
  add_field-IsWithinProfile unsupported atype first more s h = cc h

  delete_field-IsWithinProfile :
      (field : ProfileField) (atype : Str) (s : S) {r : UpdateUserRequest D} {s' : S}
      → delete_field parsers user_id field atype s ≡ (done r, s')
      → IsWithinProfile user_id r
  delete_field-IsWithinProfile given_name atype s h =
      returned-IsWithinProfile _ s (refl, tt, (first_name_known, tt)) h
  delete_field-IsWithinProfile surname atype s h =
      returned-IsWithinProfile _ s (refl, tt, (last_name_known, tt)) h
  delete_field-IsWithinProfile avatar atype s h =
      returned-IsWithinProfile _ s (refl, tt, (avatar_known, tt)) h
  delete_field-IsWithinProfile common_name atype s h = cc h
  delete_field-IsWithinProfile mail atype s h = cc h
  delete_field-IsWithinProfile ssh_public_key atype s h = cc h
  delete_field-IsWithinProfile ou atype s h = cc h
  delete_field-IsWithinProfile unsupported atype s h = cc h

  insert_remaining-IsWithinProfile :
      (keys : List Str) (s : S) {r : UpdateUserRequest D} {s' : S}
      → insert_remaining parsers user_id keys s ≡ (done r, s')
      → IsWithinProfile user_id r
  insert_remaining-IsWithinProfile [] s h =
      returned-IsWithinProfile _ s (refl, tt, (keys_known, tt)) h
  insert_remaining-IsWithinProfile (k ∷ ks) s h = insert_keys-IsWithinProfile _ s h

  module _ (display_error : DomainError → Str)
      (get_user_details : UserId → S → Result DomainError (User D) × S) where
    add_keys-IsWithinProfile :
        (vals : List Str) (s : S) {r : UpdateUserRequest D} {s' : S}
        → add_keys parsers user_id display_error get_user_details vals s ≡ (done r, s')
        → IsWithinProfile user_id r
    unfolding add_keys
    add_keys-IsWithinProfile vals s h =
        let (user, s₁, found, rest) =
          >>=-done (current_user parsers user_id display_error get_user_details) _ s h in
        insert_keys-IsWithinProfile _ s₁ rest

    delete_keys-IsWithinProfile :
        (vals : List Str) (s : S) {r : UpdateUserRequest D} {s' : S}
        → delete_keys parsers user_id display_error get_user_details vals s ≡ (done r, s')
        → IsWithinProfile user_id r
    unfolding delete_keys
    delete_keys-IsWithinProfile [] s h = returned-IsWithinProfile _ s (refl, tt, (keys_known, tt)) h
    delete_keys-IsWithinProfile (v ∷ vs) s h =
        let (user, s₁, found, rest) =
          >>=-done (current_user parsers user_id display_error get_user_details) _ s h in
        insert_remaining-IsWithinProfile _ s₁ rest

-- Whatever the operation and the attribute named in a change, the request that is built for the back end
-- is for the given user, and inserts and deletes no attributes but the first name, the last name, the
-- avatar and the SSH keys; so never the unit, the Kerberos setting or a POSIX number.
pub profile_update-IsWithinProfile :
    {S D : Type 0} (parsers : Parsers D) (user_id : UserId) (display_error : DomainError → Str)
    (get_user_details : UserId → S → Result DomainError (User D) × S) (operation : LdapModifyType)
    (atype atype_lower : Str) (vals : List Str) (s : S) (request : UpdateUserRequest D) (s' : S)
    → profile_update parsers user_id display_error get_user_details operation atype atype_lower vals
        s
      ≡ (done request, s')
    → IsWithinProfile user_id request
unfolding profile_update
profile_update-IsWithinProfile parsers user_id display_error get_user_details replace atype
      atype_lower [] s request s' h =
    cc h
profile_update-IsWithinProfile parsers user_id display_error get_user_details replace atype
      atype_lower (v ∷ vs) s request s' h =
    replace_field-IsWithinProfile parsers user_id _ _ _ _ s h
profile_update-IsWithinProfile parsers user_id display_error get_user_details add atype atype_lower
      [] s request s' h =
    cc h
profile_update-IsWithinProfile parsers user_id display_error get_user_details add atype atype_lower
      (v ∷ vs) s request s' h =
    elim (Bool-cases (is_ssh_public_key atype_lower)) [
      | inl keys ↦ add_keys-IsWithinProfile parsers user_id _ _ _ s (rw keys at h)
      | inr field ↦ add_field-IsWithinProfile parsers user_id _ _ _ _ s (rw field at h)
    ]
profile_update-IsWithinProfile parsers user_id display_error get_user_details delete atype
      atype_lower vals s request s' h =
    elim (Bool-cases (is_ssh_public_key atype_lower)) [
      | inl keys ↦ delete_keys-IsWithinProfile parsers user_id _ _ _ s (rw keys at h)
      | inr field ↦ delete_field-IsWithinProfile parsers user_id _ _ s (rw field at h)
    ]
