-- ===== src/Ldap/Dn/Tests.antt =====
-- Runs of the functions on names of `dc=example,dc=com`, and the theorems at such names.
use klldap.Base.{◌++◌, ◌≡◌, ◌≢◌, refl, true, [], ◌∷◌, All, ok, err, if◌then◌else◌, ◌↔◌}
use klldap.Text.{
  codes, str_eq, lower, to_ascii_lowercase, eq_ignore_ascii_case, contains, is_empty, split, join,
  trim, trim_end, trim_start,
}
use klldap.Domain.{GroupName}
use klldap.Auth.{UserId, user_id}
use klldap.Ldap.Error.{LdapResultCode}
use klldap.Ldap.Ou.{Rdn, DnParts, is_subtree, ou_chain}
use klldap.Ldap.Ou.Subtree.{EndsIn, is_subtree_iff}
use klldap.Ldap.Ou.Chain.{components}
use klldap.Ldap.Dn.{
  make_dn_pair, parse_distinguished_name, format_dn, user, group, is_user_ou, build_user_dn,
  build_group_dn, get_user_id_from_distinguished_name, get_user_or_group_id_from_distinguished_name,
}
use klldap.Ldap.Dn.Parse.{IsClean, parse_distinguished_name-normal}
use klldap.Ldap.Dn.Format.{IsPlainText}
use klldap.Ldap.Dn.Names.{outermost, IsPlace}
use klldap.Ldap.Dn.Roundtrip.{
  get_user_id-build_user_dn, get_user_or_group_id-build_group_dn, get_user_id-build_user_dn_in_ou,
}

-- Opens what a run of the text functions needs.
texts : Unit {0}
unfolding str_eq lower to_ascii_lowercase eq_ignore_ascii_case contains is_empty split join trim
    trim_end trim_start make_dn_pair
texts = tt

abbrev dc : Rdn
dc = (codes "dc", codes "example")

abbrev suffix : DnParts
suffix = (codes "dc", codes "com") ∷ []

abbrev tree : DnParts
tree = dc ∷ suffix

tree-IsClean : All IsClean tree
unfolding texts
tree-IsClean = (
  (
    record { lower_case = refl; trimmed = refl; no_comma = refl; no_equals = refl },
    record { lower_case = refl; trimmed = refl; no_comma = refl; no_equals = refl },
  ),
  (
    (
      record { lower_case = refl; trimmed = refl; no_comma = refl; no_equals = refl },
      record { lower_case = refl; trimmed = refl; no_comma = refl; no_equals = refl },
    ),
    tt,
  ),
)

abbrev bob : UserId
bob = record { text = codes "bob" }

abbrev staff : GroupName
staff = record { text = codes "Staff" }

bob-IsPlainText : IsPlainText (codes "bob")
unfolding texts
bob-IsPlainText = record { trimmed = refl; no_comma = refl; no_equals = refl }

staff-IsPlainText : IsPlainText (codes "Staff")
unfolding texts
staff-IsPlainText = record { trimmed = refl; no_comma = refl; no_equals = refl }

parse_example :
    parse_distinguished_name (codes "uid=Bob, ou=People,dc=example,dc=com")
    ≡ ok ((codes "uid", codes "bob") ∷ (codes "ou", codes "people") ∷ tree)
unfolding parse_distinguished_name texts
parse_example = refl

home-IsPlace : IsPlace (codes "people\\Home") tree
unfolding texts
home-IsPlace = record {
  unit = (
    record { trimmed = refl; no_comma = refl; no_equals = refl },
    (record { trimmed = refl; no_comma = refl; no_equals = refl }, tt),
  );
  base_clean = tree-IsClean;
}

abbrev ou_base : DnParts
ou_base = (codes "ou", codes "corp") ∷ suffix

corp-IsPlace : IsPlace (codes "people") ou_base
unfolding texts
corp-IsPlace = record {
  unit = (record { trimmed = refl; no_comma = refl; no_equals = refl }, tt);
  base_clean = (
    (
      record { lower_case = refl; trimmed = refl; no_comma = refl; no_equals = refl },
      record { lower_case = refl; trimmed = refl; no_comma = refl; no_equals = refl },
    ),
    (
      (
        record { lower_case = refl; trimmed = refl; no_comma = refl; no_equals = refl },
        record { lower_case = refl; trimmed = refl; no_comma = refl; no_equals = refl },
      ),
      tt,
    ),
  );
}

parse_distinguished_name-normal_example :
    All IsClean ((codes "uid", codes "bob") ∷ (codes "ou", codes "people") ∷ tree)
    × (parse_distinguished_name
          (format_dn ((codes "uid", codes "bob") ∷ (codes "ou", codes "people") ∷ tree))
        ≡ ok ((codes "uid", codes "bob") ∷ (codes "ou", codes "people") ∷ tree))
parse_distinguished_name-normal_example =
    parse_distinguished_name-normal (codes "uid=Bob, ou=People,dc=example,dc=com")
      ((codes "uid", codes "bob") ∷ (codes "ou", codes "people") ∷ tree) parse_example

is_subtree_iff_example :
    (is_subtree ((codes "uid", codes "bob") ∷ tree) tree ≡ true)
    ↔ EndsIn ((codes "uid", codes "bob") ∷ tree) tree
is_subtree_iff_example = is_subtree_iff ((codes "uid", codes "bob") ∷ tree) tree

ou_chain-tree : ou_chain tree ≡ []
unfolding texts
ou_chain-tree = refl

ou_chain-ou_base : ou_chain ou_base ≢ []
unfolding texts
ou_chain-ou_base = cc

get_user_id-build_user_dn_example :
    get_user_id_from_distinguished_name
      (build_user_dn bob (codes "people\\Home") (format_dn tree))
      tree
      (format_dn tree)
    ≡ ok bob
unfolding texts
get_user_id-build_user_dn_example =
    get_user_id-build_user_dn bob (codes "people\\Home") dc suffix bob-IsPlainText refl home-IsPlace
      ou_chain-tree

get_user_or_group_id-build_group_dn_example :
    get_user_or_group_id_from_distinguished_name
      (build_group_dn staff (codes "people\\Home") (format_dn tree))
      tree
    ≡ (if is_user_ou (outermost (components (codes "people\\Home")))
        then user (user_id (codes "Staff"))
        else group (record { text = to_ascii_lowercase (codes "Staff") }))
get_user_or_group_id-build_group_dn_example =
    get_user_or_group_id-build_group_dn staff (codes "people\\Home") dc suffix staff-IsPlainText
      home-IsPlace ou_chain-tree

get_user_id-build_user_dn_in_ou_example :
    get_user_id_from_distinguished_name
      (build_user_dn bob (codes "people") (format_dn ou_base))
      ou_base
      (format_dn ou_base)
    ≡ err record {
      code = LdapResultCode.invalid_dn_syntax;
      message =
          codes "Unexpected DN format. Got \""
          ++ (build_user_dn bob (codes "people") (format_dn ou_base)
              ++ (codes "\", expected: "
                  ++ (codes "\"uid=id,ou=...," ++ (format_dn ou_base ++ codes "\""))));
    }
get_user_id-build_user_dn_in_ou_example =
    get_user_id-build_user_dn_in_ou bob (codes "people") (codes "ou", codes "corp") suffix
      bob-IsPlainText corp-IsPlace ou_chain-ou_base
