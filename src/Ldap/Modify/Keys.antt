-- ===== src/Ldap/Modify/Keys.antt =====
-- The keys of a user as a set: what adding, deleting and replacing values makes of it.
use klldap.Base.{
  ◌≡◌, refl, Bool, true, false, not, ◌&&◌, ◌||◌, none, ◌∙◌, List, [], ◌∷◌, arith, Result, ok,
}
use klldap.Text.{Str, codes, is_empty}
use klldap.Text.Case.{str_eq_refl}
use klldap.Auth.{UserId}
use klldap.Domain.{AttributeValue, unbounded, attribute_name, User, DomainError, UpdateUserRequest}
use klldap.Domain.Deserialize.{Parsers, deserialize_attribute_value}
use klldap.Ldap.Error.{LdapError}
use klldap.Ldap.World.{Outcome, done, World}
use klldap.Ldap.Modify.Profile.{
  LdapModifyType, add, delete, replace, has_key, push_missing, remove_keys, existing_keys,
  is_ssh_public_key, profile_field, ssh_public_key, insert_keys, insert_remaining, add_keys,
  delete_keys, profile_update,
}
use klldap.Ldap.Modify.KeySet.{has_key-push_missing, has_key-remove_keys}

-- Which keys a user has after a change, given those before.
abbrev pub keys_after : LdapModifyType → List Str → List Str → Str → Bool
keys_after add existing vals k = has_key existing k || has_key vals k
keys_after replace existing vals k = has_key vals k
keys_after delete existing [] k = false
keys_after delete existing (v ∷ vs) k = has_key existing k && not (has_key (v ∷ vs) k)

-- The update that leaves a user with these keys: their list is inserted, or, without keys, the attribute
-- is deleted, and nothing else is touched.
abbrev pub key_update : {D : Type 0} → UserId → List Str → UpdateUserRequest D
key_update user_id [] = record {
  user_id = user_id;
  email = none;
  display_name = none;
  delete_attributes = attribute_name (codes "sshpublickey") ∷ [];
  insert_attributes = [];
}
key_update user_id (k ∷ ks) = record {
  user_id = user_id;
  email = none;
  display_name = none;
  delete_attributes = [];
  insert_attributes =
      record {
        name = attribute_name (codes "sshpublickey");
        value = AttributeValue.string (unbounded (k ∷ ks));
      }
      ∷ [];
}

-- A deletion needs no values.
abbrev pub has_enough : LdapModifyType → List Str → Bool
has_enough delete vals = true
has_enough operation vals = not (is_empty vals)

has_key-head : (v : Str) (vs : List Str) → has_key (v ∷ vs) v ≡ true
has_key-head v vs = rw (str_eq_refl v) refl

module _ {S D : Type 0} (parsers : Parsers D) (user_id : UserId) where
  insert_keys-done :
      (k : Str) (ks : List Str) (s : S)
      → insert_keys {S = S} parsers user_id (k ∷ ks) s ≡ (done (key_update user_id (k ∷ ks)), s)
  unfolding deserialize_attribute_value
  insert_keys-done k ks s = refl

  -- A run gives the update for this user to some keys, and they are as the test says.
  abbrev Requests : (S → Outcome LdapError (UpdateUserRequest D) × S) → S → (Str → Bool) → Type 0
  Requests run s test =
      (keys : List Str) × (s' : S) × (run s ≡ (done (key_update user_id keys), s'))
      × ((k : Str) → has_key keys k ≡ test k)

  -- What holds a value is not empty.
  insert_keys-Requests :
      (keys : List Str) (v : Str) (test : Str → Bool) (s : S)
      → has_key keys v ≡ true
      → ((k : Str) → has_key keys k ≡ test k)
      → Requests (insert_keys parsers user_id keys) s test
  insert_keys-Requests [] v test s there agree = cc there
  insert_keys-Requests (k ∷ ks) v test s there agree = (k ∷ ks, s, insert_keys-done k ks s, agree)

  insert_remaining-Requests :
      (keys : List Str) (test : Str → Bool) (s : S)
      → ((k : Str) → has_key keys k ≡ test k)
      → Requests (insert_remaining parsers user_id keys) s test
  insert_remaining-Requests [] test s agree = ([], s, refl, agree)
  insert_remaining-Requests (k ∷ ks) test s agree = (k ∷ ks, s, insert_keys-done k ks s, agree)

  module _ (display_error : DomainError → Str)
      (get_user_details : UserId → S → Result DomainError (User D) × S) where
    -- With the user at hand, a change of the keys builds a request, for the keys that the change leaves.
    pub profile_update-Requests :
        (operation : LdapModifyType) (atype atype_lower : Str) (vals : List Str) (user : User D)
        (s s₁ : S)
        → is_ssh_public_key atype_lower ≡ true
        → profile_field atype_lower ≡ ssh_public_key
        → has_enough operation vals ≡ true
        → get_user_details user_id s ≡ (ok user, s₁)
        → (keys : List Str) × (s' : S) × (profile_update parsers user_id display_error
              get_user_details operation atype atype_lower vals s
            ≡ (done (key_update user_id keys), s'))
          × ((k : Str) → has_key keys k ≡ keys_after operation (existing_keys user) vals k)
    unfolding profile_update add_keys delete_keys is_empty
    profile_update-Requests replace atype atype_lower (v ∷ vs) user s s₁ ssh field enough found =
        rw field (insert_keys-Requests (v ∷ vs) v _ s (has_key-head v vs) (λ k. refl))
    profile_update-Requests add atype atype_lower (v ∷ vs) user s s₁ ssh field enough found =
        rw (ssh, found)
          (insert_keys-Requests (push_missing (existing_keys user) (v ∷ vs)) v _ s₁
            (has_key-push_missing (existing_keys user) (v ∷ vs) v
              ∙ rw (has_key-head v vs) (ground arith))
            (has_key-push_missing (existing_keys user) (v ∷ vs)))
    profile_update-Requests delete atype atype_lower [] user s s₁ ssh field enough found =
        rw ssh (insert_remaining-Requests [] _ s (λ k. refl))
    profile_update-Requests delete atype atype_lower (v ∷ vs) user s s₁ ssh field enough found =
        rw (ssh, found)
          (insert_remaining-Requests (remove_keys (v ∷ vs) (existing_keys user)) _ s₁
            (has_key-remove_keys (v ∷ vs) (existing_keys user)))
    profile_update-Requests replace atype atype_lower [] user s s₁ ssh field enough found =
        cc enough
    profile_update-Requests add atype atype_lower [] user s s₁ ssh field enough found = cc enough
