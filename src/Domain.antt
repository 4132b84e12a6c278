-- ===== src/Domain.antt =====
-- crates/domain/src/types.rs and requests.rs: the values, users, groups and requests that the parts
-- of the server exchange; crates/domain-model: the user columns and the errors.
-- `D` stands for chrono's `NaiveDateTime`; a `Uuid` is its text, as in the source.
pub mod Deserialize
use klldap.Base.{
  ℕ, Bool, true, false, Option, none, some, List, [], ◌∷◌, ◌++◌, any, ◌==◌, if◌then◌else◌,
}
use klldap.Text.{Str, codes, str_eq, to_ascii_lowercase}
use klldap.Auth.{UserId}
use Prim.Native.Nat.{Ordering, compare}

-- `i64`, within its range: `negsuc n` is -(n + 1).
pub data ℤ : Type 0 where
  pos negsuc : ℕ → ℤ

pub data Cardinality {ℓ} (T : Type ℓ) : Type ℓ where
  singleton : T → Cardinality T
  unbounded : List T → Cardinality T

-- JPEG bytes.
pub record Avatar : Type 0 where
  pub bytes : List ℕ

pub data AttributeValue (D : Type 0) : Type 0 where
  string : Cardinality Str → AttributeValue D
  integer : Cardinality ℤ → AttributeValue D
  avatar : Cardinality Avatar → AttributeValue D
  date_time : Cardinality D → AttributeValue D

-- `CaseInsensitiveString` inside, as in `UserId`.
pub record AttributeName : Type 0 where
  pub text : Str

unfoldable pub attribute_name : Str → AttributeName
attribute_name s = record { text = to_ascii_lowercase s }

pub record Attribute (D : Type 0) : Type 0 where
  pub name : AttributeName
  pub value : AttributeValue D

pub record Email : Type 0 where
  pub text : Str

-- A group's name keeps its case; `==` on it ignores case.
pub record GroupName : Type 0 where
  pub text : Str

-- `i32`.
pub record GroupId : Type 0 where
  pub id : ℤ

pub record User (D : Type 0) : Type 0 where
  pub user_id : UserId
  pub email : Email
  pub display_name : Option Str
  pub creation_date : D
  pub uuid : Str
  pub attributes : List (Attribute D)
  pub modified_date : D
  pub password_modified_date : D
  pub krb_principal_name : Option Str

pub record GroupMember : Type 0 where
  pub user_id : UserId
  pub ou : Str

pub record Group (D : Type 0) : Type 0 where
  pub id : GroupId
  pub display_name : GroupName
  pub creation_date : D
  pub uuid : Str
  pub users : List GroupMember
  pub attributes : List (Attribute D)
  pub modified_date : D

pub record GroupDetails (D : Type 0) : Type 0 where
  pub group_id : GroupId
  pub display_name : GroupName
  pub creation_date : D
  pub uuid : Str
  pub attributes : List (Attribute D)
  pub modified_date : D

pub record UserAndGroups (D : Type 0) : Type 0 where
  pub user : User D
  pub groups : Option (List (GroupDetails D))

pub record CreateUserRequest (D : Type 0) : Type 0 where
  pub user_id : UserId
  pub email : Email
  pub display_name : Option Str
  pub attributes : List (Attribute D)

pub record CreateGroupRequest (D : Type 0) : Type 0 where
  pub display_name : GroupName
  pub attributes : List (Attribute D)

pub record UpdateUserRequest (D : Type 0) : Type 0 where
  pub user_id : UserId
  pub email : Option Email
  pub display_name : Option Str
  pub delete_attributes : List AttributeName
  pub insert_attributes : List (Attribute D)

pub data UserColumn : Type 0 where
  user_id email lowercase_email display_name creation_date password_hash totp_secret : UserColumn
  mfa_type uuid modified_date password_modified_date krb_principal_name : UserColumn

-- What is carried in the variants other than `EntityNotFound` is only printed.
pub data DomainError : Type 0 where
  authentication_error database_error database_transaction_error : Str → DomainError
  authentication_protocol_error unknown_crypto_error binary_serialization_error : Str → DomainError
  base64_decode_error entity_not_found internal_error : Str → DomainError

-- The loop of `compare_str_case_insensitive` over the two iterators.
unfoldable pub compare_chars : Str → Str → Ordering
compare_chars [] [] = Ordering.eq
compare_chars [] (d ∷ t) = Ordering.lt
compare_chars (c ∷ s) [] = Ordering.gt
compare_chars (c ∷ s) (d ∷ t) =
    let later = compare_chars s t in
    elim (compare c d) [
      | Ordering.eq ↦ later
      | Ordering.lt ↦ Ordering.lt
      | Ordering.gt ↦ Ordering.gt
    ]

abbrev flat_map_chars : (ℕ → Str) → Str → Str
flat_map_chars f [] = []
flat_map_chars f (c ∷ s) = f c ++ flat_map_chars f s

abbrev is_equal : Ordering → Bool
is_equal Ordering.eq = true
is_equal Ordering.lt = false
is_equal Ordering.gt = false

-- `to_lowercase` stands for `char::to_lowercase` of the standard library.
module _ (to_lowercase : ℕ → Str) where
  unfoldable pub compare_str_case_insensitive : Str → Str → Ordering
  unfolding compare_chars
  compare_str_case_insensitive s1 s2 =
      compare_chars (flat_map_chars to_lowercase s1) (flat_map_chars to_lowercase s2)

  -- `==` of the types made by `make_case_insensitive_comparable_string`.
  unfoldable pub group_name_eq : GroupName → GroupName → Bool
  unfolding compare_str_case_insensitive
  group_name_eq a b = is_equal (compare_str_case_insensitive a.text b.text)

abbrev pub builtin_groups : List Str
builtin_groups =
    codes "lldap_admin"
    ∷ codes "lldap_password_manager"
    ∷ codes "lldap_strict_readonly"
    ∷ codes "lldap_disabled"
    ∷ codes "lldap_sudohost"
    ∷ []

unfoldable pub is_builtin_group : Str → Bool
is_builtin_group name = any (λ g. str_eq g name) builtin_groups
