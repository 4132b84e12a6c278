-- ===== src/Sql/Values.antt =====
-- How attribute values are stored: `attribute_value_to_db_bytes` of
-- crates/sql-backend-handler/src/sql_user_backend_handler.rs and sql_group_backend_handler.rs, and
-- crates/domain-model/src/model/deserialize.rs, which reads them. serde_json, bincode, chrono, the
-- parsers and the image conversion are fields of `Codec`.
pub mod Laws
pub mod Tests
use klldap.Base.{ℕ, Bool, true, false, Option, none, some, List, [], ◌∷◌, ◌++◌, Result, ok, err}
use klldap.Text.{Str, codes}
use klldap.Schema.{AttributeType, AttributeList, get_attribute_type}
use klldap.Domain.{
  ℤ, pos, AttributeValue, Cardinality, singleton, unbounded, Avatar, Attribute, AttributeName,
  DomainError,
}

pub record Codec (D : Type 0) : Type 0 where
  pub as_bytes : Str → List ℕ
  pub from_utf8 : List ℕ → Option Str
  pub json_to_vec : List Str → List ℕ
  pub json_from_slice : List ℕ → Option (List Str)
  pub i64_to_string : ℤ → Str
  pub parse_i64 : Str → Option ℤ
  pub timestamp : D → ℤ
  pub bincode_date : List ℕ → D
  pub bincode_dates : List ℕ → List D
  pub new_avatar : List ℕ → Avatar

abbrev pub unwrap_or {ℓ} : {A : Type ℓ} → A → Option A → A
unwrap_or default none = default
unwrap_or default (some a) = a

module _ {D : Type 0} (c : Codec D) where
  -- The last arm of the source is written out.
  unfoldable pub attribute_value_to_db_bytes : AttributeValue D → List ℕ
  attribute_value_to_db_bytes (AttributeValue.string (singleton s)) = c.as_bytes s
  attribute_value_to_db_bytes (AttributeValue.string (unbounded list)) = c.json_to_vec list
  attribute_value_to_db_bytes (AttributeValue.integer (singleton i)) =
      c.as_bytes (c.i64_to_string i)
  attribute_value_to_db_bytes (AttributeValue.avatar (singleton p)) = p.bytes
  attribute_value_to_db_bytes (AttributeValue.date_time (singleton dt)) =
      c.as_bytes (c.i64_to_string (c.timestamp dt))
  attribute_value_to_db_bytes (AttributeValue.integer (unbounded l)) = []
  attribute_value_to_db_bytes (AttributeValue.avatar (unbounded l)) = []
  attribute_value_to_db_bytes (AttributeValue.date_time (unbounded l)) = []

  abbrev text_or_empty : List ℕ → Str
  text_or_empty bytes = unwrap_or [] (c.from_utf8 bytes)

  abbrev text_list : List ℕ → Option (List Str) → List Str
  text_list bytes (some list) = list
  text_list bytes none = text_or_empty bytes ∷ []

  abbrev number : List ℕ → ℤ
  number bytes = unwrap_or (pos 0) (c.parse_i64 (unwrap_or (codes "0") (c.from_utf8 bytes)))

  -- A `Serialized` is its bytes.
  unfoldable pub deserialize_attribute_value : List ℕ → AttributeType → Bool → AttributeValue D
  deserialize_attribute_value value AttributeType.string false =
      AttributeValue.string (singleton (text_or_empty value))
  deserialize_attribute_value value AttributeType.string true =
      AttributeValue.string (unbounded (text_list value (c.json_from_slice value)))
  deserialize_attribute_value value AttributeType.integer false =
      AttributeValue.integer (singleton (number value))
  deserialize_attribute_value value AttributeType.integer true =
      AttributeValue.integer (unbounded (number value ∷ []))
  deserialize_attribute_value value AttributeType.date_time false =
      AttributeValue.date_time (singleton (c.bincode_date value))
  deserialize_attribute_value value AttributeType.date_time true =
      AttributeValue.date_time (unbounded (c.bincode_dates value))
  deserialize_attribute_value value AttributeType.avatar false =
      AttributeValue.avatar (singleton (c.new_avatar value))
  deserialize_attribute_value value AttributeType.avatar true =
      AttributeValue.avatar (unbounded (c.new_avatar value ∷ []))

  abbrev unknown_name : AttributeName → DomainError
  unknown_name name =
      DomainError.internal_error
        (codes "Unable to find schema for attribute named '" ++ (name.text ++ codes "'"))

  abbrev read_as :
      AttributeName → List ℕ → Option (AttributeType × Bool) → Result DomainError (Attribute D)
  read_as name value (some (typ, is_list)) =
      ok (record { name = name; value = deserialize_attribute_value value typ is_list })
  read_as name value none = err (unknown_name name)

  unfoldable pub deserialize_attribute :
      AttributeName → List ℕ → AttributeList → Result DomainError (Attribute D)
  deserialize_attribute name value schema = read_as name value (get_attribute_type schema name.text)
