-- ===== src/Sql/Values/Laws.antt =====
-- Which values come back as they were stored.
use klldap.Base.{◌≡◌, refl, ap, Bool, true, false, some, List, ok}
use klldap.Text.{Str}
use klldap.Schema.{AttributeType, AttributeList, get_attribute_type}
use klldap.Domain.{ℤ, AttributeValue, singleton, unbounded, AttributeName}
use klldap.Sql.Values.{
  Codec, attribute_value_to_db_bytes, deserialize_attribute_value, deserialize_attribute,
}

-- The type in the schema that a value is read with, and the avatars that the conversion leaves alone.
abbrev pub typ_of : {D : Type 0} → AttributeValue D → AttributeType
typ_of (AttributeValue.string v) = AttributeType.string
typ_of (AttributeValue.integer v) = AttributeType.integer
typ_of (AttributeValue.avatar v) = AttributeType.avatar
typ_of (AttributeValue.date_time v) = AttributeType.date_time

abbrev pub is_list_of : {D : Type 0} → AttributeValue D → Bool
is_list_of (AttributeValue.string (singleton v)) = false
is_list_of (AttributeValue.integer (singleton v)) = false
is_list_of (AttributeValue.avatar (singleton v)) = false
is_list_of (AttributeValue.date_time (singleton v)) = false
is_list_of (AttributeValue.string (unbounded v)) = true
is_list_of (AttributeValue.integer (unbounded v)) = true
is_list_of (AttributeValue.avatar (unbounded v)) = true
is_list_of (AttributeValue.date_time (unbounded v)) = true

-- Texts, lists of texts, single numbers and single avatars.
abbrev pub is_storable : {D : Type 0} → AttributeValue D → Bool
is_storable (AttributeValue.string v) = true
is_storable (AttributeValue.integer (singleton v)) = true
is_storable (AttributeValue.integer (unbounded v)) = false
is_storable (AttributeValue.avatar (singleton v)) = true
is_storable (AttributeValue.avatar (unbounded v)) = false
is_storable (AttributeValue.date_time v) = false

-- What serde_json, the formatting of numbers and the check of UTF-8 promise: each reads what it wrote.
pub record Lawful {D : Type 0} (c : Codec D) : Type 0 where
  pub utf8 : (s : Str) → c.from_utf8 (c.as_bytes s) ≡ some s
  pub json : (l : List Str) → c.json_from_slice (c.json_to_vec l) ≡ some l
  pub i64 : (i : ℤ) → c.parse_i64 (c.i64_to_string i) ≡ some i

module _ {D : Type 0} (c : Codec D) (laws : Lawful c) where
  -- An avatar that was made by the same conversion.
  abbrev pub IsConverted : AttributeValue D → Type 0
  IsConverted (AttributeValue.avatar (singleton p)) = c.new_avatar p.bytes ≡ p
  IsConverted value = Unit

  read-stored :
      (value : AttributeValue D)
      → is_storable value ≡ true
      → IsConverted value
      → deserialize_attribute_value c
          (attribute_value_to_db_bytes c value)
          (typ_of value)
          (is_list_of value)
        ≡ value
  unfolding attribute_value_to_db_bytes deserialize_attribute_value
  read-stored (AttributeValue.string (singleton s)) h k = rw (laws.utf8 s) refl
  read-stored (AttributeValue.string (unbounded l)) h k = rw (laws.json l) refl
  read-stored (AttributeValue.integer (singleton i)) h k =
      rw (laws.utf8 (c.i64_to_string i), laws.i64 i) refl
  read-stored (AttributeValue.avatar (singleton p)) h k =
      ap (λ a. AttributeValue.avatar (singleton a)) k
  read-stored (AttributeValue.integer (unbounded l)) h k = cc h
  read-stored (AttributeValue.avatar (unbounded l)) h k = cc h
  read-stored (AttributeValue.date_time v) h k = cc h

-- A value that is stored and then read back under a name that the schema knows with the value's type and
-- kind is the value again, if it is a text, a list of texts, a number, or an avatar that the image
-- conversion leaves as it is, and if JSON, decimal numbers and UTF-8 read what they wrote. Lists of
-- numbers, lists of avatars and dates are not covered.
pub deserialize_attribute-stored :
    {D : Type 0} (c : Codec D) (laws : Lawful c) (schema : AttributeList) (name : AttributeName)
    (value : AttributeValue D)
    → get_attribute_type schema name.text ≡ some (typ_of value, is_list_of value)
    → is_storable value ≡ true
    → IsConverted c laws value
    → deserialize_attribute c name (attribute_value_to_db_bytes c value) schema
      ≡ ok (record { name = name; value = value })
unfolding deserialize_attribute
deserialize_attribute-stored c laws schema name value known storable converted =
    rw (known, read-stored c laws value storable converted) refl
