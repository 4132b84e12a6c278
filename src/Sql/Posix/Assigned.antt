-- ===== src/Sql/Posix/Assigned.antt =====
-- What a new user has in the end.
use klldap.Base.{◌≡◌, Bool, true, false, not, ◌&&◌, List, [], ◌∷◌, ◌++◌, if◌then◌else◌}
use klldap.Text.{Str, codes, str_eq}
use klldap.Auth.{UserId}
use klldap.Domain.{ℤ, AttributeValue, Attribute, attribute_name, DomainError, singleton}
use klldap.Ldap.World.{Outcome, done, failed, panicked}
use klldap.Sql.Posix.{PosixSettings, Search, found, exhausted}
use klldap.Sql.Posix.Attributes.{has_attribute}

abbrev pub number_of : {D : Type 0} → Str → ℤ → Attribute D
number_of name n = record {
  name = attribute_name name;
  value = AttributeValue.integer (singleton n);
}

-- The attribute alone, if it is wanted and the request has none of that name.
abbrev pub added :
    {D : Type 0} → Bool → Str → AttributeValue D → List (Attribute D) → List (Attribute D)
added wanted name value attributes =
    if wanted && not (has_attribute name attributes)
    then record { name = attribute_name name; value = value } ∷ []
    else []

-- The number that a search gives, as an attribute.
abbrev pub number_found : {D : Type 0} → Str → Search → Outcome DomainError (List (Attribute D))
number_found name (found n) = done (number_of name n ∷ [])
number_found name (Search.failed e) = failed e
number_found name exhausted = panicked

abbrev pub map_done : {A B : Type 0} → (A → B) → Outcome DomainError A → Outcome DomainError B
map_done f (done a) = done (f a)
map_done f (failed e) = failed e
map_done f panicked = panicked

-- The attributes that are pushed have different names.
abbrev Differs : Str → Str → Type 0
Differs n m = str_eq (attribute_name n).text m ≡ false

module _ {D : Type 0} where
  module _ (settings : PosixSettings) (user_id : UserId) (attributes : List (Attribute D)) where
    abbrev pub added_ou : Str → List (Attribute D)
    added_ou default_ou =
        added true (codes "ou") (AttributeValue.string (singleton default_ou)) attributes

    abbrev pub added_gid : List (Attribute D)
    added_gid =
        added settings.user_gidnumber_assign (codes "gidnumber")
          (AttributeValue.integer (singleton settings.user_gidnumber_start)) attributes

    abbrev pub added_shell : List (Attribute D)
    added_shell =
        added settings.user_loginshell_assign (codes "loginshell")
          (AttributeValue.string (singleton settings.user_loginshell_default)) attributes

    abbrev pub added_home : List (Attribute D)
    added_home =
        added settings.user_homedirectory_assign (codes "homedirectory")
          (AttributeValue.string
            (singleton (settings.user_homedirectory_prefix ++ (codes "/" ++ user_id.text))))
          attributes

    -- Behind the request: a unit, the attributes `uid`, and the rest.
    abbrev pub final_attributes : Str → List (Attribute D) → List (Attribute D)
    final_attributes default_ou uid =
        attributes ++ (added_ou default_ou ++ (uid ++ (added_gid ++ (added_shell ++ added_home))))
