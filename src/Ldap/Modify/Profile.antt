-- ===== src/Ldap/Modify/Profile.antt =====
-- crates/ldap/src/modify.rs, `handle_modify_change`: what a change of a profile attribute asks the back
-- end for. `get_user_details` is the look-up of the readable handler.
use klldap.Base.{
  Bool, true, false, Option, none, some, List, [], ◌∷◌, ◌++◌, any, retain, find?, if◌then◌else◌,
  not, Result, ok, err,
}
use klldap.Text.{Str, codes, str_eq}
use klldap.Auth.{UserId}
use klldap.Schema.{AttributeType}
use klldap.Domain.{
  AttributeValue, singleton, unbounded, AttributeName, attribute_name, Attribute, Email, User,
  DomainError, UpdateUserRequest,
}
use klldap.Domain.Deserialize.{Parsers, deserialize_attribute_value}
use klldap.Ldap.Error.{LdapResultCode, LdapError}
use klldap.Ldap.Password.{ldap_error}
use klldap.Ldap.World.{Run, return, fail, call, ◌>>=◌}

pub data LdapModifyType : Type 0 where
  add delete replace : LdapModifyType

-- What the string patterns of the matches on `atype_lower` tell apart.
pub data ProfileField : Type 0 where
  given_name surname common_name mail avatar ssh_public_key ou unsupported : ProfileField

abbrev pub one_of : Str → List Str → Bool
one_of s names = any (str_eq s) names

abbrev pub is_ssh_public_key : Str → Bool
is_ssh_public_key atype_lower =
    one_of atype_lower (codes "sshpublickey" ∷ codes "ssh_public_key" ∷ [])

unfoldable pub profile_field : Str → ProfileField
profile_field atype_lower =
    if one_of atype_lower (codes "givenname" ∷ codes "given_name" ∷ [])
    then given_name
    else if one_of atype_lower (codes "sn" ∷ codes "surname" ∷ [])
    then surname
    else if one_of atype_lower (codes "cn" ∷ codes "commonname" ∷ codes "displayname" ∷ [])
    then common_name
    else if one_of atype_lower (codes "mail" ∷ codes "email" ∷ [])
    then mail
    else if one_of atype_lower (codes "avatar" ∷ codes "jpegphoto" ∷ codes "jpeg_photo" ∷ [])
    then avatar
    else if is_ssh_public_key atype_lower
    then ssh_public_key
    else if str_eq atype_lower (codes "ou")
    then ou
    else unsupported

-- The fields that are protected from deletion.
unfoldable pub is_protected : Str → Bool
is_protected atype_lower =
    one_of atype_lower
      (codes "mail" ∷ codes "email" ∷ codes "cn" ∷ codes "displayname" ∷ codes "commonname" ∷ [])

-- `Vec::contains`.
abbrev pub has_key : List Str → Str → Bool
has_key keys v = any (λ k. str_eq k v) keys

-- The loop that pushes the values that are not there yet.
unfoldable pub push_missing : List Str → List Str → List Str
push_missing existing [] = existing
push_missing existing (v ∷ vs) =
    push_missing (if has_key existing v then existing else existing ++ (v ∷ [])) vs

unfoldable pub remove_keys : List Str → List Str → List Str
remove_keys delete_vals existing = retain (λ k. not (has_key delete_vals k)) existing

abbrev keys_of_value : {D : Type 0} → AttributeValue D → List Str
keys_of_value (AttributeValue.string (unbounded list)) = list
keys_of_value (AttributeValue.string (singleton s)) = s ∷ []
keys_of_value (AttributeValue.integer v) = []
keys_of_value (AttributeValue.avatar v) = []
keys_of_value (AttributeValue.date_time v) = []

abbrev keys_of_attribute : {D : Type 0} → Option (Attribute D) → List Str
keys_of_attribute none = []
keys_of_attribute (some a) = keys_of_value a.value

unfoldable pub keys_among : {D : Type 0} → List (Attribute D) → List Str
keys_among attributes =
    keys_of_attribute (find? (λ a. str_eq a.name.text (codes "sshpublickey")) attributes)

abbrev pub existing_keys : {D : Type 0} → User D → List Str
existing_keys user = keys_among user.attributes

abbrev pub no_values : Str → LdapError
no_values atype =
    ldap_error LdapResultCode.invalid_attribute_syntax (codes "No values provided for " ++ atype)

abbrev pub unwilling : Str → LdapError
unwilling message = ldap_error LdapResultCode.unwilling_to_perform message

abbrev add_unsupported : Str → LdapError
add_unsupported atype = unwilling (codes "Add not supported for " ++ atype)

module _ {D : Type 0} (user_id : UserId) where
  abbrev pub request_of :
      Option Email → Option Str → List AttributeName → List (Attribute D) → UpdateUserRequest D
  request_of email display_name deleted inserted = record {
    user_id = user_id;
    email = email;
    display_name = display_name;
    delete_attributes = deleted;
    insert_attributes = inserted;
  }

  abbrev pub insert_value : Str → AttributeValue D → UpdateUserRequest D
  insert_value name value =
      request_of none none [] (record { name = attribute_name name; value = value } ∷ [])

  abbrev pub delete_one : Str → UpdateUserRequest D
  delete_one name = request_of none none (attribute_name name ∷ []) []

module _ {S D : Type 0} (parsers : Parsers D) (user_id : UserId) where
  abbrev pub insert_or_fail :
      Str → Str → Result Str (AttributeValue D) → Run S LdapError (UpdateUserRequest D)
  insert_or_fail name label (ok value) = return (insert_value user_id name value)
  insert_or_fail name label (err e) = fail (
      ldap_error LdapResultCode.constraint_violation
        (codes "Invalid " ++ (label ++ (codes " value: " ++ e))))

  abbrev pub insert :
      Str → Str → AttributeType → Bool → List Str → Run S LdapError (UpdateUserRequest D)
  insert name label typ is_list vals =
      insert_or_fail name label (deserialize_attribute_value parsers vals typ is_list)

  abbrev pub insert_keys : List Str → Run S LdapError (UpdateUserRequest D)
  insert_keys keys =
      insert (codes "sshpublickey") (codes "sshPublicKey") AttributeType.string true keys

  -- The values are `first ∷ more`: the arms for no value come before.
  abbrev pub replace_field :
      ProfileField → Str → Str → List Str → Run S LdapError (UpdateUserRequest D)
  replace_field given_name atype first more =
      insert (codes "first_name") (codes "first_name") AttributeType.string false (first ∷ more)
  replace_field surname atype first more =
      insert (codes "last_name") (codes "last_name") AttributeType.string false (first ∷ more)
  replace_field common_name atype first more = return (request_of user_id none (some first) [] [])
  replace_field mail atype first more =
      return (request_of user_id (some (record { text = first })) none [] [])
  replace_field avatar atype first more =
      insert (codes "avatar") (codes "avatar") AttributeType.avatar false (first ∷ more)
  replace_field ssh_public_key atype first more = insert_keys (first ∷ more)
  replace_field ou atype first more =
      fail (unwilling (codes "Direct modification of 'ou' via LDAP Modify is not supported."))
  replace_field unsupported atype first more = fail (
      unwilling (
        codes "Unsupported attribute for LDAP Modify: "
        ++ (atype
            ++ codes " (supported: givenName, sn, cn, mail, avatar, sshPublicKey, userPassword)")))

  -- The keys are told apart before.
  abbrev pub add_field : ProfileField → Str → Str → List Str → Run S LdapError (UpdateUserRequest D)
  add_field given_name atype first more =
      insert (codes "first_name") (codes "first_name") AttributeType.string false (first ∷ more)
  add_field surname atype first more =
      insert (codes "last_name") (codes "last_name") AttributeType.string false (first ∷ more)
  add_field common_name atype first more = return (request_of user_id none (some first) [] [])
  add_field mail atype first more =
      return (request_of user_id (some (record { text = first })) none [] [])
  add_field avatar atype first more =
      insert (codes "avatar") (codes "avatar") AttributeType.avatar false (first ∷ more)
  add_field ssh_public_key atype first more = fail (add_unsupported atype)
  add_field ou atype first more = fail (add_unsupported atype)
  add_field unsupported atype first more = fail (add_unsupported atype)

  abbrev pub delete_field : ProfileField → Str → Run S LdapError (UpdateUserRequest D)
  delete_field given_name atype = return (delete_one user_id (codes "first_name"))
  delete_field surname atype = return (delete_one user_id (codes "last_name"))
  delete_field avatar atype = return (delete_one user_id (codes "avatar"))
  delete_field field atype = fail (unwilling (codes "Deletion not supported for " ++ atype))

  abbrev pub insert_remaining : List Str → Run S LdapError (UpdateUserRequest D)
  insert_remaining [] = return (delete_one user_id (codes "sshpublickey"))
  insert_remaining (k ∷ ks) = insert_keys (k ∷ ks)

  module _ (display_error : DomainError → Str)
      (get_user_details : UserId → S → Result DomainError (User D) × S) where
    abbrev pub current_user : Run S LdapError (User D)
    current_user =
        call
          (λ e.
            ldap_error LdapResultCode.operations_error
              (codes "Failed to read current user: " ++ display_error e))
          (get_user_details user_id)

    unfoldable pub add_keys : List Str → Run S LdapError (UpdateUserRequest D)
    add_keys new_vals = do
      user ← current_user
      insert_keys (push_missing (existing_keys user) new_vals)

    unfoldable pub delete_keys : List Str → Run S LdapError (UpdateUserRequest D)
    delete_keys [] = return (delete_one user_id (codes "sshpublickey"))
    delete_keys (v ∷ vs) = do
      user ← current_user
      insert_remaining (remove_keys (v ∷ vs) (existing_keys user))

    -- The request that the match on the operation builds, for the values that are UTF-8.
    unfoldable pub profile_update :
        LdapModifyType → Str → Str → List Str → Run S LdapError (UpdateUserRequest D)
    profile_update replace atype atype_lower [] = fail (no_values atype)
    profile_update replace atype atype_lower (first ∷ more) =
        replace_field (profile_field atype_lower) atype first more
    profile_update add atype atype_lower [] = fail (no_values atype)
    profile_update add atype atype_lower (first ∷ more) =
        if is_ssh_public_key atype_lower
        then add_keys (first ∷ more)
        else add_field (profile_field atype_lower) atype first more
    profile_update delete atype atype_lower delete_vals =
        if is_ssh_public_key atype_lower
        then delete_keys delete_vals
        else delete_field (profile_field atype_lower) atype
