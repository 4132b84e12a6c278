-- ===== src/Domain/Deserialize.antt =====
-- crates/domain/src/deserialize.rs. The parsers of the standard library, chrono and base64, and the
-- image conversion of crates/domain/src/images.rs, are fields of `Parsers`.
use klldap.Base.{
  ℕ, Bool, true, false, List, [], ◌∷◌, ◌++◌, map, if◌then◌else◌, Result, ok, err, ◌>>=◌, map_ok,
  map_err, collect,
}
use klldap.Text.{Str, codes, is_empty}
use klldap.Schema.{AttributeType}
use klldap.Domain.{ℤ, Avatar, AttributeValue, singleton, unbounded}

-- Errors are their texts, as `anyhow` prints them.
pub record Parsers (D : Type 0) : Type 0 where
  pub parse_i64 : Str → Result Str ℤ
  pub parse_from_rfc3339 : Str → Result Str D
  pub base64_decode : Str → Result Str (List ℕ)
  pub process_avatar_input : List ℕ → Result Str (List ℕ)
  pub parse_uuid : Str → Result Str Str

-- `with_context`: the outer text replaces the inner one where the error is printed.
abbrev context {ℓ} : {A : Type ℓ} → Str → Result Str A → Result Str A
context message r = map_err (λ e. message) r

abbrev avatar_or_empty : Result Str (List ℕ) → Avatar
avatar_or_empty (ok jpeg) = record { bytes = jpeg }
avatar_or_empty (err e) = record { bytes = [] }

module _ {D : Type 0} (p : Parsers D) where
  -- `Avatar::new`, which converts once more.
  abbrev new_avatar : List ℕ → Avatar
  new_avatar bytes = avatar_or_empty (p.process_avatar_input bytes)

  abbrev parse_int : Str → Result Str ℤ
  parse_int value = context (codes "Invalid integer value " ++ value) (p.parse_i64 value)

  abbrev parse_date : Str → Result Str D
  parse_date value = context (codes "Invalid date value " ++ value) (p.parse_from_rfc3339 value)

  abbrev parse_avatar : Str → Result Str Avatar
  parse_avatar value = if is_empty value then ok (record { bytes = [] }) else do
    raw_bytes ← context (codes "Invalid base64 data for avatar") (p.base64_decode value)
    jpeg_bytes ← context (codes "Failed to process avatar") (p.process_avatar_input raw_bytes)
    ok (new_avatar jpeg_bytes)

  abbrev not_a_list : Str
  not_a_list = codes "Attribute is not a list, but multiple values were provided"

  abbrev deserialize_list : AttributeType → List Str → Result Str (AttributeValue D)
  deserialize_list AttributeType.string values = ok (AttributeValue.string (unbounded values))
  deserialize_list AttributeType.integer values =
      map_ok (λ l. AttributeValue.integer (unbounded l)) (collect (map parse_int values))
  deserialize_list AttributeType.date_time values =
      map_ok (λ l. AttributeValue.date_time (unbounded l)) (collect (map parse_date values))
  deserialize_list AttributeType.avatar values =
      map_ok (λ l. AttributeValue.avatar (unbounded l)) (collect (map parse_avatar values))

  abbrev deserialize_one : AttributeType → Str → Result Str (AttributeValue D)
  deserialize_one AttributeType.string value = ok (AttributeValue.string (singleton value))
  deserialize_one AttributeType.integer value =
      map_ok (λ i. AttributeValue.integer (singleton i)) (parse_int value)
  deserialize_one AttributeType.date_time value =
      map_ok (λ d. AttributeValue.date_time (singleton d)) (parse_date value)
  deserialize_one AttributeType.avatar value =
      map_ok (λ a. AttributeValue.avatar (singleton a)) (parse_avatar value)

  -- The patterns are the test on `value.len()`.
  unfoldable pub deserialize_attribute_value :
      List Str → AttributeType → Bool → Result Str (AttributeValue D)
  deserialize_attribute_value values typ true = deserialize_list typ values
  deserialize_attribute_value [] typ false = err not_a_list
  deserialize_attribute_value (value ∷ []) typ false = deserialize_one typ value
  deserialize_attribute_value (value ∷ (other ∷ more)) typ false = err not_a_list
