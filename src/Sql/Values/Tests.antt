-- ===== src/Sql/Values/Tests.antt =====
-- A list of keys, stored and read, with a codec in miniature: a text in a list is written as its codes,
-- each one higher, and an end mark.
use klldap.Base.{ℕ, zero, suc, ◌≡◌, refl, ap, true, false, Option, none, some, List, [], ◌∷◌, ok}
use klldap.Text.{Str, codes, push_front, eq_ignore_ascii_case, lower}
use klldap.Schema.{AttributeType, AttributeList, get_attribute_type, get_by_name_or_alias}
use klldap.Domain.{ℤ, pos, negsuc, AttributeValue, unbounded, AttributeName}
use klldap.Sql.Values.{Codec, attribute_value_to_db_bytes, deserialize_attribute}
use klldap.Sql.Values.Laws.{Lawful, deserialize_attribute-stored}

abbrev write_text : Str → List ℕ → List ℕ
write_text [] rest = 0 ∷ rest
write_text (c ∷ s) rest = suc c ∷ write_text s rest

abbrev write : List Str → List ℕ
write [] = []
write (s ∷ l) = write_text s (write l)

abbrev read : List ℕ → List Str
read [] = []
read (zero ∷ rest) = [] ∷ read rest
read (suc c ∷ rest) = push_front c (read rest)

read-write_text : (s : Str) (rest : List ℕ) → read (write_text s rest) ≡ s ∷ read rest
read-write_text [] rest = refl
read-write_text (c ∷ s) rest = rw (read-write_text s rest) refl

read-write : (l : List Str) → read (write l) ≡ l
read-write [] = refl
read-write (s ∷ l) = rw (read-write_text s (write l), read-write l) refl

abbrev print_i64 : ℤ → Str
print_i64 (pos n) = n ∷ []
print_i64 (negsuc n) = 0 ∷ (n ∷ [])

abbrev parse_i64 : Str → Option ℤ
parse_i64 [] = none
parse_i64 (n ∷ []) = some (pos n)
parse_i64 (sign ∷ (n ∷ rest)) = some (negsuc n)

parse_i64-print_i64 : (i : ℤ) → parse_i64 (print_i64 i) ≡ some i
parse_i64-print_i64 (pos n) = refl
parse_i64-print_i64 (negsuc n) = refl

abbrev codec : Codec Unit
codec = record {
  as_bytes = λ s. s;
  from_utf8 = λ b. some b;
  json_to_vec = write;
  json_from_slice = λ b. some (read b);
  i64_to_string = print_i64;
  parse_i64 = parse_i64;
  timestamp = λ d. pos 0;
  bincode_date = λ b. tt;
  bincode_dates = λ b. [];
  new_avatar = λ b. record { bytes = b };
}

codec-Lawful : Lawful codec
codec-Lawful = record {
  utf8 = λ s. refl;
  json = λ l. ap some (read-write l);
  i64 = parse_i64-print_i64;
}

abbrev schema : AttributeList
schema = record {
  attributes =
      record {
        name = codes "sshpublickey";
        aliases = [];
        attribute_type = AttributeType.string;
        is_list = true;
        is_visible = true;
        is_editable = true;
        is_hardcoded = true;
        is_readonly = false;
      }
      ∷ [];
}

abbrev key_name : AttributeName
key_name = record { text = codes "sshpublickey" }

abbrev keys : AttributeValue Unit
keys = AttributeValue.string (unbounded (codes "one" ∷ (codes "two" ∷ [])))

key-known : get_attribute_type schema key_name.text ≡ some (AttributeType.string, true)
unfolding get_attribute_type get_by_name_or_alias eq_ignore_ascii_case lower
key-known = refl

deserialize_attribute-stored_example :
    deserialize_attribute codec key_name (attribute_value_to_db_bytes codec keys) schema
    ≡ ok (record { name = key_name; value = keys })
deserialize_attribute-stored_example =
    deserialize_attribute-stored codec codec-Lawful schema key_name keys key-known refl tt
