-- ===== src/Ldap/Dn/Format.antt =====
-- Parsing what `format_dn` wrote, in any case, and the shape of the names that are built.
use mathlib.Core.List.{map-append}
use klldap.Base.{
  ℕ, ◌≡◌, refl, ap, sym, ◌∙◌, true, false, String, List, [], ◌∷◌, ◌++◌, append_assoc, map, reverse,
  arith, All, ok, if◌then◌else◌,
}
use klldap.Text.{Str, codes, to_ascii_lowercase, lower, join, is_empty}
use klldap.Text.Case.{to_ascii_lowercase-append, to_ascii_lowercase_idem, contains-lowercase}
use klldap.Text.Split.{Lacks, join-append}
use klldap.Text.Trim.{IsTrimmed, trim-lowercase}
use klldap.Domain.{GroupName}
use klldap.Auth.{UserId}
use klldap.Ldap.Ou.{Rdn, DnParts}
use klldap.Ldap.Ou.Chain.{components, ou_rdn, internal_ou_to_ldap_rdn_chain-components}
use klldap.Ldap.Dn.{parse_distinguished_name, format_rdn, format_dn, build_user_dn, build_group_dn}
use klldap.Ldap.Dn.Parse.{IsCleanText, IsClean, parse_distinguished_name-format_dn}

-- A text that survives the parser up to case: trimmed, with no comma and no equals sign.
pub record IsPlainText (s : Str) : Type 0 where
  pub trimmed : IsTrimmed s
  pub no_comma : Lacks b',' s
  pub no_equals : Lacks b'=' s

abbrev pub IsPlain : Rdn → Type 0
IsPlain (k, v) = IsPlainText k × IsPlainText v

abbrev pub lower_rdn : Rdn → Rdn
lower_rdn (k, v) = (to_ascii_lowercase k, to_ascii_lowercase v)

Lacks-lowercase :
    (c : ℕ) (s : Str)
    → lower c ≡ c
    → ((d : ℕ) → lower d ≡ c → d ≡ c)
    → Lacks c s
    → Lacks c (to_ascii_lowercase s)
Lacks-lowercase c s fixed only h = contains-lowercase c s fixed only ∙ h

only_comma : (d : ℕ) → lower d ≡ b',' → d ≡ b','
unfolding lower
only_comma d h = ground arith

only_equals : (d : ℕ) → lower d ≡ b'=' → d ≡ b'='
unfolding lower
only_equals d h = ground arith

pub IsCleanText-lowercase : (s : Str) → IsPlainText s → IsCleanText (to_ascii_lowercase s)
unfolding lower
IsCleanText-lowercase s h = record {
  lower_case = to_ascii_lowercase_idem s;
  trimmed = trim-lowercase s ∙ ap to_ascii_lowercase h.trimmed;
  no_comma = Lacks-lowercase b',' s refl only_comma h.no_comma;
  no_equals = Lacks-lowercase b'=' s refl only_equals h.no_equals;
}

All-IsClean-lower : (parts : DnParts) → All IsPlain parts → All IsClean (map lower_rdn parts)
All-IsClean-lower [] h = tt
All-IsClean-lower ((k, v) ∷ parts) h =
    ((IsCleanText-lowercase k h.0.0, IsCleanText-lowercase v h.0.1), All-IsClean-lower parts h.1)

lowercase-format_rdn :
    (k v : Str) → to_ascii_lowercase (format_rdn (k, v)) ≡ format_rdn (lower_rdn (k, v))
unfolding to_ascii_lowercase lower
lowercase-format_rdn k v = to_ascii_lowercase-append k _

lowercase-format_dn :
    (parts : DnParts) → to_ascii_lowercase (format_dn parts) ≡ format_dn (map lower_rdn parts)
unfolding to_ascii_lowercase join lower
lowercase-format_dn [] = refl
lowercase-format_dn ((k, v) ∷ []) = lowercase-format_rdn k v
lowercase-format_dn ((k, v) ∷ (q ∷ parts)) =
    to_ascii_lowercase-append (format_rdn (k, v)) _
    ∙ cc (lowercase-format_rdn k v, lowercase-format_dn (q ∷ parts))

pub parse-lowercase :
    (dn : Str) → parse_distinguished_name (to_ascii_lowercase dn) ≡ parse_distinguished_name dn
unfolding parse_distinguished_name
parse-lowercase dn = rw to_ascii_lowercase_idem

-- Formatting plain parts and parsing the text gives the parts in lower case.
pub parse_distinguished_name-format_dn_plain :
    (p : Rdn) (parts : DnParts)
    → All IsPlain (p ∷ parts)
    → parse_distinguished_name (format_dn (p ∷ parts)) ≡ ok (map lower_rdn (p ∷ parts))
parse_distinguished_name-format_dn_plain p parts h =
    sym (parse-lowercase (format_dn (p ∷ parts)))
    ∙ ap parse_distinguished_name (lowercase-format_dn (p ∷ parts))
    ∙ parse_distinguished_name-format_dn (lower_rdn p) (map lower_rdn parts)
        (All-IsClean-lower (p ∷ parts) h)

format_dn-append :
    (p q : Rdn) (ps qs : DnParts)
    → format_dn ((p ∷ ps) ++ (q ∷ qs)) ≡ format_dn (p ∷ ps) ++ (b',' ∷ format_dn (q ∷ qs))
format_dn-append p q ps qs =
    rw map-append
      (join-append b',' (format_rdn p) (format_rdn q) (map format_rdn ps) (map format_rdn qs))

is_empty-format_dn : (ps : List Str) (p : Str) → is_empty (format_dn (map ou_rdn (p ∷ ps))) ≡ false
unfolding is_empty join
is_empty-format_dn [] p = refl
is_empty-format_dn (q ∷ ps) p = refl

format_dn-cons :
    (r q : Rdn) (qs : DnParts)
    → format_dn (r ∷ (q ∷ qs)) ≡ format_rdn r ++ (b',' ∷ format_dn (q ∷ qs))
unfolding join
format_dn-cons r q qs = refl

is_empty-format_dn_nil : is_empty (format_dn []) ≡ true
unfolding is_empty join
is_empty-format_dn_nil = refl

-- A built name is `format_dn` of its parts: the name, the chain of the unit, the base.
build_dn-from :
    (key : String) (name : Str) (b : Rdn) (base : DnParts) (ps : List Str)
    → (if is_empty (format_dn (map ou_rdn ps))
        then format_rdn (codes key, name ++ (b',' ∷ format_dn (b ∷ base)))
        else format_rdn (
          codes key,
          name ++ (b',' ∷ (format_dn (map ou_rdn ps) ++ (b',' ∷ format_dn (b ∷ base)))),
        ))
      ≡ format_dn ((codes key, name) ∷ (map ou_rdn ps ++ (b ∷ base)))
build_dn-from key name b base [] =
    rw is_empty-format_dn_nil (
      sym (append_assoc (codes key) (b'=' ∷ name) _)
      ∙ sym (format_dn-cons (codes key, name) b base))
build_dn-from key name b base (p ∷ ps) = rw (is_empty-format_dn ps p) (
    sym (append_assoc (codes key) (b'=' ∷ name) _)
    ∙ ap (λ t. format_rdn (codes key, name) ++ (b',' ∷ t))
        (sym (format_dn-append (ou_rdn p) b (map ou_rdn ps) base))
    ∙ sym (format_dn-cons (codes key, name) (ou_rdn p) (map ou_rdn ps ++ (b ∷ base))))

module _ (ou : Str) (b : Rdn) (base : DnParts) where
  pub build_user_dn-eq-format_dn :
      (u : UserId)
      → build_user_dn u ou (format_dn (b ∷ base))
        ≡ format_dn ((codes "uid", u.text) ∷ (map ou_rdn (reverse (components ou)) ++ (b ∷ base)))
  unfolding build_user_dn
  build_user_dn-eq-format_dn u =
      rw internal_ou_to_ldap_rdn_chain-components
        (build_dn-from "uid" u.text b base (reverse (components ou)))

  pub build_group_dn-eq-format_dn :
      (g : GroupName)
      → build_group_dn g ou (format_dn (b ∷ base))
        ≡ format_dn ((codes "cn", g.text) ∷ (map ou_rdn (reverse (components ou)) ++ (b ∷ base)))
  unfolding build_group_dn
  build_group_dn-eq-format_dn g =
      rw internal_ou_to_ldap_rdn_chain-components
        (build_dn-from "cn" g.text b base (reverse (components ou)))
