-- ===== src/Ldap/Dn.antt =====
-- crates/ldap/src/dn.rs, from "Distinguished name parsing" on: the parser, the user or group that a
-- name stands for, and the names of users and groups.
pub mod Parse
pub mod Format
pub mod Names
pub mod Roundtrip
pub mod Tests
use klldap.Base.{
  ◌+◌, String, Bool, not, ◌&&◌, ◌||◌, Option, none, some, List, [], ◌∷◌, ◌++◌, map, ◌==◌,
  if◌then◌else◌, length, get_last?, ok, err, collect,
}
use klldap.Text.{Str, codes, str_eq, to_ascii_lowercase, contains, is_empty, split, join, trim}
use klldap.Auth.{UserId, user_id}
use klldap.Domain.{GroupName}
use klldap.Ldap.Error.{LdapResultCode, LdapError, LdapResult}
use klldap.Ldap.Ou.{
  Rdn, DnParts, default_primary_user_ou, ou_chain, is_subtree, internal_ou_to_ldap_rdn_chain,
}

abbrev invalid_dn : Str → LdapError
invalid_dn message = record { code = LdapResultCode.invalid_dn_syntax; message = message }

abbrev quoted : Str → Str
quoted s = codes "\"" ++ (s ++ codes "\"")

abbrev too_many : Str → Str → Str → Str
too_many a b c =
    codes "Too many elements in distinguished name: "
    ++ (quoted a ++ (codes ", " ++ (quoted b ++ (codes ", " ++ quoted c))))

unfoldable pub make_dn_pair : List Str → LdapResult Rdn
make_dn_pair [] = err (invalid_dn (codes "Empty DN element"))
make_dn_pair (k ∷ []) = err (invalid_dn (codes "Missing DN value"))
make_dn_pair (k ∷ (v ∷ [])) = ok (k, v)
make_dn_pair (k ∷ (v ∷ (e ∷ more))) = err (invalid_dn (too_many k v e))

abbrev pub parse_rdn : Str → LdapResult Rdn
parse_rdn s = make_dn_pair (map trim (split b'=' s))

unfoldable pub parse_distinguished_name : Str → LdapResult DnParts
parse_distinguished_name dn = collect (map parse_rdn (split b',' (to_ascii_lowercase dn)))

-- `format!("{k}={v}")`, and the parts joined by commas.
abbrev pub format_rdn : Rdn → Str
format_rdn (k, v) = k ++ (b'=' ∷ v)

abbrev pub format_dn : DnParts → Str
format_dn parts = join b',' (map format_rdn parts)

pub data UserOrGroupName : Type 0 where
  user : UserId → UserOrGroupName
  group : GroupName → UserOrGroupName
  bad_sub_stree unexpected_format : UserOrGroupName
  invalid_syntax : LdapError → UserOrGroupName

abbrev unexpected : Str → Str → LdapError
unexpected input expected_format =
    invalid_dn (
      codes "Unexpected DN format. Got \""
      ++ (input ++ (codes "\", expected: " ++ expected_format)))

unfoldable pub into_ldap_error : UserOrGroupName → Str → Str → LdapError
into_ldap_error bad_sub_stree input expected = invalid_dn (codes "Not a subtree of the base tree")
into_ldap_error (invalid_syntax e) input expected = e
into_ldap_error unexpected_format input expected = unexpected input expected
into_ldap_error (user u) input expected = unexpected input expected
into_ldap_error (group g) input expected = unexpected input expected

-- `ou_chain.last()`, in lower case, or the empty text.
abbrev pub lower_value_or_default : Option Rdn → Str
lower_value_or_default none = []
lower_value_or_default (some (k, v)) = to_ascii_lowercase v

abbrev pub primary_ou : DnParts → Str
primary_ou parts = lower_value_or_default (get_last? (ou_chain parts))

abbrev pub is_user_ou : Str → Bool
is_user_ou ou = str_eq ou default_primary_user_ou || is_empty ou

-- The type and the value of `parts[0]` decide.
unfoldable pub classify_rdn : Rdn → Str → UserOrGroupName
classify_rdn (k, v) ou =
    let rdn_type = to_ascii_lowercase k in
    if str_eq rdn_type (codes "uid") || (str_eq rdn_type (codes "cn") && is_user_ou ou)
    then user (user_id v)
    else if str_eq rdn_type (codes "cn") && not (is_user_ou ou)
    then group (record { text = v })
    else unexpected_format

abbrev pub classify_first : DnParts → Str → UserOrGroupName
classify_first [] ou = unexpected_format
classify_first (rdn ∷ rest) ou = classify_rdn rdn ou

-- What follows the parse in `get_user_or_group_id_from_distinguished_name`.
unfoldable pub classify_parts : DnParts → DnParts → UserOrGroupName
classify_parts parts base_tree =
    if not (is_subtree parts base_tree)
    then bad_sub_stree
    else if length parts == length base_tree + length (ou_chain parts) + 1
    then classify_first parts (primary_ou parts)
    else unexpected_format

abbrev pub classify_parsed : LdapResult DnParts → DnParts → UserOrGroupName
classify_parsed (err e) base_tree = invalid_syntax e
classify_parsed (ok parts) base_tree = classify_parts parts base_tree

unfoldable pub get_user_or_group_id_from_distinguished_name : Str → DnParts → UserOrGroupName
get_user_or_group_id_from_distinguished_name dn base_tree =
    classify_parsed (parse_distinguished_name dn) base_tree

abbrev expect_user : UserOrGroupName → Str → Str → LdapResult UserId
expect_user (user u) dn expected = ok u
expect_user other dn expected = err (into_ldap_error other dn expected)

unfoldable pub get_user_id_from_distinguished_name : Str → DnParts → Str → LdapResult UserId
get_user_id_from_distinguished_name dn base_tree base_dn_str =
    expect_user (get_user_or_group_id_from_distinguished_name dn base_tree) dn
      (codes "\"uid=id,ou=...," ++ (base_dn_str ++ codes "\""))

abbrev expect_group : UserOrGroupName → Str → Str → LdapResult GroupName
expect_group (group g) dn expected = ok g
expect_group other dn expected = err (into_ldap_error other dn expected)

unfoldable pub get_group_id_from_distinguished_name : Str → DnParts → Str → LdapResult GroupName
get_group_id_from_distinguished_name dn base_tree base_dn_str =
    expect_group (get_user_or_group_id_from_distinguished_name dn base_tree) dn
      (codes "\"cn=id,ou=any-allowed-ou,..." ++ (base_dn_str ++ codes "\""))

unfoldable pub looks_like_distinguished_name : Str → Bool
looks_like_distinguished_name dn = contains b'=' dn || contains b',' dn

unfoldable pub get_user_id_from_distinguished_name_or_plain_name :
    Str → DnParts → Str → LdapResult UserId
get_user_id_from_distinguished_name_or_plain_name dn base_tree base_dn_str =
    if not (looks_like_distinguished_name dn)
    then ok (user_id dn)
    else get_user_id_from_distinguished_name dn base_tree base_dn_str

unfoldable pub get_group_id_from_distinguished_name_or_plain_name :
    Str → DnParts → Str → LdapResult GroupName
get_group_id_from_distinguished_name_or_plain_name dn base_tree base_dn_str =
    if not (looks_like_distinguished_name dn)
    then ok (record { text = dn })
    else get_group_id_from_distinguished_name dn base_tree base_dn_str

-- `format!("uid={},{}", …)` and `format!("cn={},{}", …)`.
abbrev build_dn : String → Str → Str → Str → Str
build_dn key name internal_ou base_dn_str =
    let ou_part = format_dn (internal_ou_to_ldap_rdn_chain internal_ou) in
    if is_empty ou_part
    then format_rdn (codes key, name ++ (b',' ∷ base_dn_str))
    else format_rdn (codes key, name ++ (b',' ∷ (ou_part ++ (b',' ∷ base_dn_str))))

unfoldable pub build_user_dn : UserId → Str → Str → Str
build_user_dn u internal_ou base_dn_str = build_dn "uid" u.text internal_ou base_dn_str

unfoldable pub build_group_dn : GroupName → Str → Str → Str
build_group_dn g internal_ou base_dn_str = build_dn "cn" g.text internal_ou base_dn_str
