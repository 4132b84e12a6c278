-- ===== src/Ldap/Dn/Names.antt =====
-- What the names built for users and groups are recognised as.
use mathlib.Core.List.{map-append, reverse-cons}
use klldap.Base.{
  suc, ◌+◌, ◌≡◌, ◌≢◌, refl, ap, ◌∙◌, ◌==◌, true, false, List, [], ◌∷◌, ◌++◌, append-nil, map, some,
  reverse, arith, All, All-append, All-reverse, ◌<◌, length, length-append, length-map,
  retain-append, get_last?,
}
use klldap.Auth.{user_id}
use klldap.Base.{if◌then◌else◌}
use klldap.Ldap.Dn.{user, group, is_user_ou}
use klldap.Text.{
  eq_ignore_ascii_case, str_eq, Str, codes, to_ascii_lowercase, lower, trim, trim_end, trim_start,
  contains,
}
use klldap.Text.Case.{to_ascii_lowercase_idem}
use klldap.Ldap.Ou.{Rdn, DnParts, is_ou, ou_chain, is_subtree}
use klldap.Ldap.Ou.Subtree.{SameName-refl, is_subtree_iff}
use klldap.Ldap.Ou.Chain.{components, ou_rdn, ou_chain-map}
use klldap.Ldap.Dn.{
  unexpected_format, format_dn, lower_value_or_default, classify_rdn, classify_parts,
  get_user_or_group_id_from_distinguished_name,
}
use klldap.Ldap.Dn.Parse.{IsCleanText, IsClean}
use klldap.Ldap.Dn.Format.{
  IsPlainText, IsPlain, lower_rdn, parse_distinguished_name-format_dn_plain,
}

-- The outermost component of a unit, in lower case; empty for the empty unit.
abbrev pub outermost : List Str → Str
outermost [] = []
outermost (c ∷ cs) = to_ascii_lowercase c

get_last?-snoc {ℓ} : {A : Type ℓ} (xs : List A) (x : A) → get_last? (xs ++ (x ∷ [])) ≡ some x
get_last?-snoc [] x = refl
get_last?-snoc (y ∷ []) x = refl
get_last?-snoc (y ∷ (z ∷ xs)) x = get_last?-snoc (z ∷ xs) x

length-pos {ℓ} : {A : Type ℓ} (xs : List A) → xs ≢ [] → 0 < length xs
length-pos [] h = absurd (h refl)
length-pos (x ∷ xs) h = omega arith

pub IsPlainText-clean : {s : Str} → IsCleanText s → IsPlainText s
IsPlainText-clean h = record { trimmed = h.trimmed; no_comma = h.no_comma; no_equals = h.no_equals }

pub IsPlainText-ou : IsPlainText (codes "ou")
unfolding trim trim_end trim_start contains
IsPlainText-ou = record { trimmed = refl; no_comma = refl; no_equals = refl }

pub primary-outermost :
    (cs : List Str)
    → lower_value_or_default (get_last? (map ou_rdn (map to_ascii_lowercase (reverse cs))))
      ≡ outermost cs
primary-outermost [] = refl
primary-outermost (c ∷ cs) =
    simp (reverse-cons, map-append, get_last?-snoc, to_ascii_lowercase_idem)

module _ (r : Rdn) (cs : List Str) (base : DnParts) (leaf : is_ou r ≡ false) where
  abbrev pub built : DnParts
  built = r ∷ (map ou_rdn cs ++ base)

  ou_chain-built : ou_chain built ≡ map ou_rdn cs ++ ou_chain base
  ou_chain-built =
      rw leaf
        (retain-append is_ou (map ou_rdn cs) base ∙ ap (λ t. t ++ ou_chain base) (ou_chain-map cs))

  is_subtree-built : is_subtree built base ≡ true
  is_subtree-built =
      (is_subtree_iff built base).1 (r ∷ map ou_rdn cs, base, refl, SameName-refl base)

  length-built : length built ≡ suc (length cs + length base)
  length-built = omega (arith, length-append (map ou_rdn cs) base, length-map ou_rdn cs)

  -- With a base that has no unit, the first part and the outermost unit decide.
  pub classify_parts-built :
      ou_chain base ≡ []
      → classify_parts built base
        ≡ classify_rdn r (lower_value_or_default (get_last? (map ou_rdn cs)))
  unfolding classify_parts
  classify_parts-built none_in_base =
      let chain : ou_chain built ≡ map ou_rdn cs =
        ou_chain-built ∙ ap (λ t. map ou_rdn cs ++ t) none_in_base ∙ append-nil (map ou_rdn cs) in
      let fits : (length built == length base + length (ou_chain built) + 1) ≡ true =
        rw chain (ground (arith, length-built, length-map ou_rdn cs)) in
      rw (is_subtree-built, fits, chain)

  -- With a unit in the base nothing that is built is recognised.
  pub classify_parts-built_in_ou :
      ou_chain base ≢ [] → classify_parts built base ≡ unexpected_format
  unfolding classify_parts
  classify_parts-built_in_ou some_in_base =
      let own = ap length ou_chain-built in
      let more = length-append (map ou_rdn cs) (ou_chain base) in
      let misses : (length built == length base + length (ou_chain built) + 1) ≡ false = ground (
        arith,
        own,
        more,
        length-built,
        length-map ou_rdn cs,
        length-pos (ou_chain base) some_in_base,
      ) in
      rw (is_subtree-built, misses)

lower_rdn-clean : (base : DnParts) → All IsClean base → map lower_rdn base ≡ base
lower_rdn-clean [] h = refl
lower_rdn-clean ((k, v) ∷ base) h =
    cc (h.0.0.lower_case, h.0.1.lower_case, lower_rdn-clean base h.1)

lower_rdn-ous :
    (cs : List Str) → map lower_rdn (map ou_rdn cs) ≡ map ou_rdn (map to_ascii_lowercase cs)
unfolding to_ascii_lowercase lower
lower_rdn-ous [] = refl
lower_rdn-ous (c ∷ cs) = rw (lower_rdn-ous cs)

IsPlain-ous : (cs : List Str) → All IsPlainText cs → All IsPlain (map ou_rdn cs)
IsPlain-ous [] h = tt
IsPlain-ous (c ∷ cs) h = ((IsPlainText-ou, h.0), IsPlain-ous cs h.1)

IsPlain-clean : (base : DnParts) → All IsClean base → All IsPlain base
IsPlain-clean [] h = tt
IsPlain-clean ((k, v) ∷ base) h =
    ((IsPlainText-clean h.0.0, IsPlainText-clean h.0.1), IsPlain-clean base h.1)

-- A unit and a base that the parser reads as they were meant.
pub record IsPlace (ou : Str) (base : DnParts) : Type 0 where
  pub unit : All IsPlainText (components ou)
  pub base_clean : All IsClean base

module _ (r : Rdn) (ou : Str) (base : DnParts) (place : IsPlace ou base) (plain : IsPlain r) where
  abbrev pub cs : List Str
  cs = reverse (components ou)

  pub recognise :
      get_user_or_group_id_from_distinguished_name (format_dn (r ∷ (map ou_rdn cs ++ base))) base
      ≡ classify_parts (lower_rdn r ∷ (map ou_rdn (map to_ascii_lowercase cs) ++ base)) base
  unfolding get_user_or_group_id_from_distinguished_name
  recognise =
      let parsed = parse_distinguished_name-format_dn_plain r (map ou_rdn cs ++ base) (
        plain,
        All-append IsPlain (map ou_rdn cs) base
            (IsPlain-ous cs (All-reverse IsPlainText _ place.unit))
            (IsPlain-clean base place.base_clean),
      ) in
      rw (
        parsed,
        map-append lower_rdn (map ou_rdn cs) base,
        lower_rdn-ous,
        lower_rdn-clean base place.base_clean,
      )

pub is_ou-uid : (u : Str) → is_ou (lower_rdn (codes "uid", u)) ≡ false
unfolding eq_ignore_ascii_case to_ascii_lowercase lower
is_ou-uid u = refl

pub is_ou-cn : (u : Str) → is_ou (lower_rdn (codes "cn", u)) ≡ false
unfolding eq_ignore_ascii_case to_ascii_lowercase lower
is_ou-cn u = refl

pub classify_rdn-uid :
    (u ou : Str) → classify_rdn (lower_rdn (codes "uid", u)) ou ≡ user (user_id u)
unfolding classify_rdn to_ascii_lowercase lower str_eq user_id
classify_rdn-uid u ou = ap (λ t. user (record { text = t })) (to_ascii_lowercase_idem u)

pub classify_rdn-cn :
    (g ou : Str)
    → classify_rdn (lower_rdn (codes "cn", g)) ou
      ≡ (if is_user_ou ou then user (user_id g) else group (record { text = to_ascii_lowercase g }))
unfolding classify_rdn to_ascii_lowercase lower str_eq user_id
classify_rdn-cn g ou = ground (arith, to_ascii_lowercase_idem g)

pub IsPlainText-uid : IsPlainText (codes "uid")
unfolding trim trim_end trim_start contains
IsPlainText-uid = record { trimmed = refl; no_comma = refl; no_equals = refl }

pub IsPlainText-cn : IsPlainText (codes "cn")
unfolding trim trim_end trim_start contains
IsPlainText-cn = record { trimmed = refl; no_comma = refl; no_equals = refl }
