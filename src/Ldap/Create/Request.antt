-- ===== src/Ldap/Create/Request.antt =====
-- crates/ldap/src/create.rs: what an add request asks the back end to create.
-- A `HashMap` is its list of entries, the latest first.
use klldap.Base.{
  ℕ, Bool, true, false, not, Option, none, some, List, [], ◌∷◌, ◌++◌, map, retain, if◌then◌else◌,
  Result, ok, err, ◌>>=◌, collect,
}
use klldap.Text.{Str, codes, str_eq, to_ascii_lowercase, eq_ignore_ascii_case}
use klldap.Auth.{UserId}
use klldap.Schema.{AttributeType}
use klldap.Domain.{
  AttributeValue, attribute_name, Attribute, CreateUserRequest, CreateGroupRequest, GroupName,
}
use klldap.Domain.Deserialize.{Parsers, deserialize_attribute_value}
use klldap.Ldap.Error.{LdapResultCode, LdapError, LdapResult}
use klldap.Ldap.Scope.{LdapPartialAttribute}
use klldap.Ldap.Password.{ldap_error}

abbrev pub HashMap : Type 0
HashMap = List (Str × List ℕ)

abbrev pub get : Str → HashMap → Option (List ℕ)
get name [] = none
get name ((k, v) ∷ m) = let later = get name m in if str_eq k name then some v else later

abbrev pub insert : Str → List ℕ → HashMap → HashMap
insert name value m = (name, value) ∷ m

-- Collecting inserts from the first to the last.
abbrev pub insert_all : List (Str × List ℕ) → HashMap → HashMap
insert_all [] m = m
insert_all ((k, v) ∷ entries) m = insert_all entries (insert k v m)

abbrev pub or_else {ℓ} : {A : Type ℓ} → Option A → Option A → Option A
or_else none o = o
or_else (some a) o = some a

abbrev pub is_some {ℓ} : {A : Type ℓ} → Option A → Bool
is_some none = false
is_some (some a) = true

abbrev constraint_violation : Str → LdapError
constraint_violation message = ldap_error LdapResultCode.constraint_violation message

abbrev parse_vals : Str → List (List ℕ) → LdapResult (Str × List ℕ)
parse_vals atype [] =
    err (constraint_violation (codes "Missing value for attribute " ++ to_ascii_lowercase atype))
parse_vals atype (val ∷ []) = ok (to_ascii_lowercase atype, val)
parse_vals atype (val ∷ (other_val ∷ more)) =
    err (constraint_violation (codes "Expected a single value for attribute " ++ atype))

unfoldable pub parse_attribute : LdapPartialAttribute → LdapResult (Str × List ℕ)
parse_attribute attr = parse_vals attr.atype attr.vals

abbrev pub is_object_class : LdapPartialAttribute → Bool
is_object_class a = eq_ignore_ascii_case a.atype (codes "objectclass")

unfoldable pub parse_attributes : List LdapPartialAttribute → LdapResult (List (Str × List ℕ))
parse_attributes attributes =
    collect (map parse_attribute (retain (λ a. not (is_object_class a)) attributes))

abbrev with_default : HashMap → HashMap
with_default m =
    if is_some (get (codes "kerberossync") m)
    then m
    else insert (codes "kerberossync") (codes "0") m

abbrev pub named_value :
    {D : Type 0} → Str → Str → Result Str (AttributeValue D) → LdapResult (Attribute D)
named_value name label (ok value) = ok (record { name = attribute_name name; value = value })
named_value name label (err e) =
    err (constraint_violation (codes "Invalid " ++ (label ++ (codes " value: " ++ e))))

-- `from_utf8`, `debug_utf8_error` and `as_bytes` are those of the standard library.
module _ {D : Type 0} (parsers : Parsers D) (from_utf8 : List ℕ → Option Str)
    (debug_utf8_error : List ℕ → Str) (as_bytes : Str → List ℕ) where
  unfoldable pub attribute_map : List (Str × List ℕ) → Str → HashMap
  attribute_map entries internal_ou =
      insert (codes "ou") (as_bytes internal_ou) (with_default (insert_all entries []))

  abbrev text_or_fail : List ℕ → Option Str → LdapResult (Option Str)
  text_or_fail v (some s) = ok (some s)
  text_or_fail v none =
      err (constraint_violation (codes "Attribute value is invalid UTF-8: " ++ debug_utf8_error v))

  -- `transpose` of what `get_attribute` finds.
  abbrev pub text_of : Option (List ℕ) → LdapResult (Option Str)
  text_of none = ok none
  text_of (some v) = text_or_fail v (from_utf8 v)

  abbrev pub attribute_of : Str → Str → AttributeType → Str → LdapResult (Attribute D)
  attribute_of name label typ text =
      named_value name label (deserialize_attribute_value parsers (text ∷ []) typ false)

  -- What an `if let` pushes.
  abbrev pub pushed : Str → AttributeType → Option Str → LdapResult (List (Attribute D))
  pushed name typ none = ok []
  pushed name typ (some text) = do a ← attribute_of name name typ text; ok (a ∷ [])

  abbrev pub ou_attribute : Str → LdapResult (Attribute D)
  ou_attribute internal_ou = attribute_of (codes "ou") (codes "ou") AttributeType.string internal_ou

  -- The attribute, and whether it is the text `1`.
  abbrev pub kerberossync : Option Str → LdapResult (Attribute D × Bool)
  kerberossync (some ksync_str) = do
    a ← attribute_of (codes "kerberossync") (codes "kerberossync") AttributeType.integer ksync_str
    ok (a, str_eq ksync_str (codes "1"))
  kerberossync none = do
    a ←
        attribute_of (codes "kerberossync") (codes "default kerberossync") AttributeType.integer
          (codes "0")
    ok (a, false)

  abbrev unwrap_or_default : Option Str → Str
  unwrap_or_default none = []
  unwrap_or_default (some s) = s

  -- The attributes, and whether the password goes to Kerberos.
  unfoldable pub new_user_attributes : HashMap → Str → LdapResult (List (Attribute D) × Bool)
  new_user_attributes attributes internal_ou = do
    given ← text_of (get (codes "givenname") attributes)
    first_name ← pushed (codes "first_name") AttributeType.string given
    sn ← text_of (get (codes "sn") attributes)
    last_name ← pushed (codes "last_name") AttributeType.string sn
    image ← text_of (or_else (get (codes "avatar") attributes) (get (codes "jpegphoto") attributes))
    avatar ← pushed (codes "avatar") AttributeType.avatar image
    ou ← ou_attribute internal_ou
    ksync_str ← text_of (get (codes "kerberossync") attributes)
    sync ← kerberossync ksync_str
    ok (first_name ++ (last_name ++ (avatar ++ (ou ∷ (sync.0 ∷ [])))), sync.1)

  unfoldable pub create_user_request :
      UserId → HashMap → Str → LdapResult (CreateUserRequest D × Bool)
  create_user_request user_id attributes internal_ou = do
    made ← new_user_attributes attributes internal_ou
    mail ← text_of (or_else (get (codes "mail") attributes) (get (codes "email") attributes))
    display_name ← text_of (get (codes "cn") attributes)
    ok (
      record {
        user_id = user_id;
        email = record { text = unwrap_or_default mail };
        display_name = display_name;
        attributes = made.0;
      },
      made.1,
    )

  unfoldable pub create_group_request : GroupName → Str → LdapResult (CreateGroupRequest D)
  create_group_request group_name internal_ou = do
    ou ← ou_attribute internal_ou
    ok (record { display_name = group_name; attributes = ou ∷ [] })
