-- ===== src/Sql/Posix/Attributes.antt =====
-- The POSIX part of `create_user`, `create_group` and `update_user_with_transaction`: the checks of the
-- numbers that come with a request, and the attributes that are added to it.
use klldap.Base.{
  ℕ, Bool, true, false, not, ◌&&◌, ◌||◌, Option, none, some, List, [], ◌∷◌, ◌++◌, any, ◌==◌,
  if◌then◌else◌, Result, ok, err, ◌>>=◌,
}
use klldap.Text.{Str, codes, str_eq, trim}
use klldap.Auth.{UserId}
use klldap.Domain.{
  ℤ, pos, negsuc, AttributeValue, singleton, unbounded, AttributeName, Attribute, attribute_name,
  DomainError,
}
use klldap.Ldap.World.{Outcome, done, failed, panicked}
use klldap.Sql.Posix.Order.{leq}
use klldap.Sql.Posix.{PosixSettings, Search, found, exhausted, next_available_number}

abbrev pub is_in_range : ℤ → Bool
is_in_range value = leq (pos 3000) value && leq value (pos 60000)

abbrev pub is_zero : ℤ → Bool
is_zero (pos n) = n == 0
is_zero (negsuc n) = false

abbrev pub is_uid : Str → Bool
is_uid name = str_eq name (codes "uidnumber")

abbrev pub is_gid : Str → Bool
is_gid name = str_eq name (codes "gidnumber")

abbrev pub out_of_range : Str → DomainError
out_of_range name = DomainError.internal_error (name ++ codes " must be between 3000 and 60000")

abbrev pub refuse_if : Bool → DomainError → Result DomainError (Unit {0})
refuse_if true e = err e
refuse_if false e = ok tt

module _ {D : Type 0} where
  abbrev pub integer_of : AttributeValue D → Option ℤ
  integer_of (AttributeValue.integer (singleton v)) = some v
  integer_of (AttributeValue.integer (unbounded l)) = none
  integer_of (AttributeValue.string v) = none
  integer_of (AttributeValue.avatar v) = none
  integer_of (AttributeValue.date_time v) = none

  abbrev pub has_attribute : Str → List (Attribute D) → Bool
  has_attribute name attributes = any (λ a. str_eq a.name.text name) attributes

  abbrev pub push_missing : Bool → Str → AttributeValue D → List (Attribute D) → List (Attribute D)
  push_missing assign name value attributes =
      if assign && not (has_attribute name attributes)
      then attributes ++ (record { name = attribute_name name; value = value } ∷ [])
      else attributes

  -- A search that does not end gives no answer, which is counted with the panics.
  abbrev pub push_number :
      Str → List (Attribute D) → Search → Outcome DomainError (List (Attribute D))
  push_number name attributes (found n) = done (
      attributes
      ++ (record { name = attribute_name name; value = AttributeValue.integer (singleton n) } ∷ []))
  push_number name attributes (Search.failed e) = failed e
  push_number name attributes exhausted = panicked

-- `i64_to_string` prints a number; the tests are what the database answers.
module _ (i64_to_string : ℤ → Str)
    (is_uidnumber_taken is_gidnumber_taken : ℤ → Result DomainError Bool) where
  abbrev already_assigned : ℤ → DomainError
  already_assigned value = DomainError.internal_error (
      codes "Number "
      ++ (i64_to_string value ++ codes " is already assigned to another user/group"))

  abbrev pub refuse_taken : ℤ → Result DomainError Bool → Result DomainError (Unit {0})
  refuse_taken value answer = do taken ← answer; refuse_if taken (already_assigned value)

  abbrev pub check_user_number : Str → ℤ → Result DomainError (Unit {0})
  check_user_number name value = do
    ranged ← refuse_if (not (is_zero value) && not (is_in_range value)) (out_of_range name)
    if is_uid name then refuse_taken value (is_uidnumber_taken value) else ok tt

  -- The body of the loop in `create_user`.
  abbrev pub check_new_user : Str → Option ℤ → Result DomainError (Unit {0})
  check_new_user name none = ok tt
  check_new_user name (some value) =
      if is_uid name || is_gid name then check_user_number name value else ok tt

  unfoldable pub check_new_user_numbers :
      {D : Type 0} → List (Attribute D) → Result DomainError (Unit {0})
  check_new_user_numbers [] = ok tt
  check_new_user_numbers (attr ∷ attributes) = do
    checked ← check_new_user attr.name.text (integer_of attr.value)
    check_new_user_numbers attributes

  abbrev pub check_group_number : Str → ℤ → Result DomainError (Unit {0})
  check_group_number name value = do
    ranged ← refuse_if (not (is_zero value) && not (is_in_range value)) (out_of_range name)
    refuse_taken value (if is_uid name then is_uidnumber_taken value else is_gidnumber_taken value)

  -- The body of the loop in `create_group`.
  abbrev pub check_new_group : Str → Option ℤ → Result DomainError (Unit {0})
  check_new_group name none = ok tt
  check_new_group name (some value) =
      if is_uid name || is_gid name then check_group_number name value else ok tt

  unfoldable pub check_new_group_numbers :
      {D : Type 0} → List (Attribute D) → Result DomainError (Unit {0})
  check_new_group_numbers [] = ok tt
  check_new_group_numbers (attr ∷ attributes) = do
    checked ← check_new_group attr.name.text (integer_of attr.value)
    check_new_group_numbers attributes

  module _ (from_utf8 : List ℕ → Option Str) (parse_i64 : Str → Option ℤ) where
    abbrev number_or_zero : Option ℤ → ℤ
    number_or_zero none = pos 0
    number_or_zero (some v) = v

    -- The number in a stored value, if it is a text.
    abbrev pub stored_number : Option Str → Option ℤ
    stored_number none = none
    stored_number (some s) = some (number_or_zero (parse_i64 (trim s)))

    abbrev pub check_updated_number : Str → ℤ → Result DomainError (Unit {0})
    check_updated_number name value = do
      ranged ← refuse_if (not (is_in_range value)) (out_of_range name)
      if is_uid name then refuse_taken value (is_uidnumber_taken value) else ok tt

    -- The body of the loop in `update_user_with_transaction`.
    abbrev pub check_updated : Str → Option ℤ → Result DomainError (Unit {0})
    check_updated name none = ok tt
    check_updated name (some value) =
        if is_uid name || is_gid name then check_updated_number name value else ok tt

    unfoldable pub check_updated_numbers :
        List (AttributeName × List ℕ) → Result DomainError (Unit {0})
    check_updated_numbers [] = ok tt
    check_updated_numbers ((name, bytes) ∷ rows) = do
      checked ← check_updated name.text (stored_number (from_utf8 bytes))
      check_updated_numbers rows

  abbrev pub assign_uid :
      {D : Type 0} → PosixSettings → List (Attribute D) → Outcome DomainError (List (Attribute D))
  assign_uid settings attributes =
      if settings.user_uidnumber_assign && not (has_attribute (codes "uidnumber") attributes)
      then push_number (codes "uidnumber") attributes (
          next_available_number i64_to_string is_uidnumber_taken (codes "uidNumber")
            settings.user_uidnumber_start settings.user_uidnumber_max)
      else done attributes

  abbrev pub assign_rest :
      {D : Type 0}
      → PosixSettings
      → UserId
      → Outcome DomainError (List (Attribute D))
      → Outcome DomainError (List (Attribute D))
  assign_rest settings user_id (failed e) = failed e
  assign_rest settings user_id panicked = panicked
  assign_rest settings user_id (done attributes) = done (
      push_missing settings.user_homedirectory_assign (codes "homedirectory")
        (AttributeValue.string
          (singleton (settings.user_homedirectory_prefix ++ (codes "/" ++ user_id.text))))
        (push_missing settings.user_loginshell_assign (codes "loginshell")
          (AttributeValue.string (singleton settings.user_loginshell_default))
          (push_missing settings.user_gidnumber_assign (codes "gidnumber")
            (AttributeValue.integer (singleton settings.user_gidnumber_start)) attributes)))

  -- `final_attributes` of `create_user`, for the first of the allowed units; the checks stand between the
  -- two steps.
  unfoldable pub new_user_attributes :
      {D : Type 0}
      → PosixSettings
      → Str
      → UserId
      → List (Attribute D)
      → Outcome DomainError (List (Attribute D))
  new_user_attributes settings default_ou user_id attributes = assign_rest settings user_id (
      assign_uid settings
        (push_missing true (codes "ou") (AttributeValue.string (singleton default_ou)) attributes))

  -- `final_attributes` of `create_group`, for the first of the allowed units.
  unfoldable pub new_group_attributes :
      {D : Type 0}
      → PosixSettings
      → Str
      → List (Attribute D)
      → Outcome DomainError (List (Attribute D))
  new_group_attributes settings default_ou attributes =
      let with_ou =
        push_missing true (codes "ou") (AttributeValue.string (singleton default_ou)) attributes in
      if settings.group_gidnumber_assign && not (has_attribute (codes "gidnumber") with_ou)
      then push_number (codes "gidnumber") with_ou (
          next_available_number i64_to_string is_gidnumber_taken (codes "gidNumber")
            settings.group_gidnumber_start settings.group_gidnumber_max)
      else done with_ou
