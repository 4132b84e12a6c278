-- ===== src/Ldap/Dn/Parse.antt =====
-- The parser of distinguished names against `format_dn`.
use klldap.Base.{
  ℕ, ◌≡◌, ◌≢◌, refl, subst, ap, ◌∙◌, List, [], ◌∷◌, map, arith, All, ok, collect, >>=-eq-ok, ◌≡⟨◌⟩◌,
  ◌∎,
}
use klldap.Text.{Str, to_ascii_lowercase, contains, split, join, trim, lower}
use klldap.Text.Case.{to_ascii_lowercase-append, to_ascii_lowercase_idem}
use klldap.Text.Split.{
  Lacks, contains-append, split-eq-one, split-append, split-join, split-ne-nil, split-All-Lacks,
  All-of_Lacks, Lacks-of_All, All-split,
}
use klldap.Text.Trim.{IsTrimmed, IsLower, trim-IsTrimmed, All-trim, All-of_IsLower, IsLower-of_All}
use klldap.Ldap.Ou.{Rdn, DnParts}
use klldap.Ldap.Dn.{make_dn_pair, parse_rdn, parse_distinguished_name, format_rdn, format_dn}

-- A text that stands in a name as it is: lower case, trimmed, with no comma and no equals sign.
pub record IsCleanText (s : Str) : Type 0 where
  pub lower_case : IsLower s
  pub trimmed : IsTrimmed s
  pub no_comma : Lacks b',' s
  pub no_equals : Lacks b'=' s

abbrev pub IsClean : Rdn → Type 0
IsClean (k, v) = IsCleanText k × IsCleanText v

parse_rdn-format_rdn : (k v : Str) → IsClean (k, v) → parse_rdn (format_rdn (k, v)) ≡ ok (k, v)
unfolding make_dn_pair
parse_rdn-format_rdn k v h =
    parse_rdn (format_rdn (k, v))
    ≡⟨ ap (λ t. make_dn_pair (map trim t)) (split-append b'=' k v h.0.no_equals) ⟩
      make_dn_pair (map trim (k ∷ split b'=' v))
    ≡⟨ ap (λ t. make_dn_pair (map trim (k ∷ t))) (split-eq-one b'=' v h.1.no_equals) ⟩
      ok (trim k, trim v)
    ≡⟨ cc (h.0.trimmed, h.1.trimmed) ⟩ ok (k, v) ∎

lowercase-format_rdn : (k v : Str) → IsClean (k, v) → IsLower (format_rdn (k, v))
unfolding to_ascii_lowercase lower
lowercase-format_rdn k v h = rw to_ascii_lowercase-append (cc (h.0.lower_case, h.1.lower_case))

lowercase-join : (ps : List Str) → All IsLower ps → IsLower (join b',' ps)
unfolding join to_ascii_lowercase lower
lowercase-join [] h = refl
lowercase-join (p ∷ []) h = h.0
lowercase-join (p ∷ (q ∷ ps)) h =
    rw to_ascii_lowercase-append (cc (h.0, lowercase-join (q ∷ ps) h.1))

no_comma-format_rdn : (k v : Str) → IsClean (k, v) → Lacks b',' (format_rdn (k, v))
unfolding contains
no_comma-format_rdn k v h = rw contains-append (ground (arith, h.0.no_comma, h.1.no_comma))

All-map_format :
    (parts : DnParts)
    → All IsClean parts
    → All IsLower (map format_rdn parts) × All (Lacks b',') (map format_rdn parts)
All-map_format [] h = (tt, tt)
All-map_format ((k, v) ∷ parts) (h, hs) =
    let (low, free) = All-map_format parts hs in
    ((lowercase-format_rdn k v h, low), (no_comma-format_rdn k v h, free))

collect-parse_rdn :
    (parts : DnParts)
    → All IsClean parts
    → collect (map parse_rdn (map format_rdn parts)) ≡ ok parts
collect-parse_rdn [] h = refl
collect-parse_rdn ((k, v) ∷ parts) h =
    rw (parse_rdn-format_rdn k v h.0) (rw (collect-parse_rdn parts h.1))

-- Formatting clean parts and parsing the text gives the parts back: no value is split, trimmed or
-- changed in case.
pub parse_distinguished_name-format_dn :
    (p : Rdn) (parts : DnParts)
    → All IsClean (p ∷ parts)
    → parse_distinguished_name (format_dn (p ∷ parts)) ≡ ok (p ∷ parts)
unfolding parse_distinguished_name
parse_distinguished_name-format_dn p parts h =
    let (low, free) = All-map_format (p ∷ parts) h in
    ap (λ t. collect (map parse_rdn (split b',' t))) (lowercase-join _ low)
    ∙ ap (λ t. collect (map parse_rdn t))
        (split-join b',' (format_rdn p) (map format_rdn parts) free)
    ∙ collect-parse_rdn (p ∷ parts) h

abbrev IsLowerChar : ℕ → Type 0
IsLowerChar c = lower c ≡ c

IsCleanText-trim :
    (s : Str) → All IsLowerChar s → All (λ x. x ≢ b',') s → Lacks b'=' s → IsCleanText (trim s)
IsCleanText-trim s low free plain = record {
  lower_case = IsLower-of_All _ (All-trim IsLowerChar s low);
  trimmed = trim-IsTrimmed s;
  no_comma = Lacks-of_All b',' _ (All-trim (λ x. x ≢ b',') s free);
  no_equals = Lacks-of_All b'=' _ (All-trim (λ x. x ≢ b'=') s (All-of_Lacks b'=' s plain));
}

make_dn_pair-IsClean :
    (ps : List Str) (p : Rdn)
    → All (All IsLowerChar) ps
    → All (All (λ x. x ≢ b',')) ps
    → All (Lacks b'=') ps
    → make_dn_pair (map trim ps) ≡ ok p
    → IsClean p
unfolding make_dn_pair
make_dn_pair-IsClean [] p low free plain e = cc
make_dn_pair-IsClean (a ∷ []) p low free plain e = cc
make_dn_pair-IsClean (a ∷ (b ∷ [])) p low free plain e =
    let same : (trim a, trim b) ≡ p = cc in
    subst IsClean same
      (IsCleanText-trim a low.0 free.0 plain.0, IsCleanText-trim b low.1.0 free.1.0 plain.1.0)
make_dn_pair-IsClean (a ∷ (b ∷ (c ∷ ps))) p low free plain e = cc

parse_rdn-IsClean :
    (s : Str) (p : Rdn) → All IsLowerChar s → Lacks b',' s → parse_rdn s ≡ ok p → IsClean p
parse_rdn-IsClean s p low free e =
    make_dn_pair-IsClean (split b'=' s) p (All-split IsLowerChar b'=' s low)
      (All-split (λ x. x ≢ b',') b'=' s (All-of_Lacks b',' s free)) (split-All-Lacks b'=' s) e

collect-IsClean :
    (ps : List Str) (parts : DnParts)
    → All (All IsLowerChar) ps
    → All (Lacks b',') ps
    → collect (map parse_rdn ps) ≡ ok parts
    → All IsClean parts
collect-IsClean [] parts low free e = subst (All IsClean) {x = []} (cc) tt
collect-IsClean (s ∷ ps) parts low free e =
    let (p, parsed, e') = >>=-eq-ok (parse_rdn s) _ e in
    let (rest, parsed_rest, e'') = >>=-eq-ok (collect (map parse_rdn ps)) _ e' in
    let same : (p ∷ rest) ≡ parts = cc in
    subst (All IsClean) same
      (parse_rdn-IsClean s p low.0 free.0 parsed, collect-IsClean ps rest low.1 free.1 parsed_rest)

pub parse_distinguished_name-IsClean :
    (dn : Str) (parts : DnParts) → parse_distinguished_name dn ≡ ok parts → All IsClean parts
unfolding parse_distinguished_name
parse_distinguished_name-IsClean dn parts e =
    let s = to_ascii_lowercase dn in
    collect-IsClean (split b',' s) parts
      (All-split IsLowerChar b',' s (All-of_IsLower s (to_ascii_lowercase_idem dn)))
      (split-All-Lacks b',' s) e

collect-ne-nil : (ps : List Str) → ps ≢ [] → collect (map parse_rdn ps) ≢ ok []
collect-ne-nil [] h e = h refl
collect-ne-nil (s ∷ ps) h e =
    let (p, parsed, e') = >>=-eq-ok (parse_rdn s) _ e in
    let (rest, parsed_rest, e'') = >>=-eq-ok (collect (map parse_rdn ps)) _ e' in cc e''

pub parse_distinguished_name-ne-nil : (dn : Str) → parse_distinguished_name dn ≢ ok []
unfolding parse_distinguished_name
parse_distinguished_name-ne-nil dn = collect-ne-nil _ (split-ne-nil b',' (to_ascii_lowercase dn))

-- Whatever text is parsed, the parts are clean, and formatting them and parsing again gives the
-- same parts.
pub parse_distinguished_name-normal :
    (dn : Str) (parts : DnParts)
    → parse_distinguished_name dn ≡ ok parts
    → All IsClean parts × (parse_distinguished_name (format_dn parts) ≡ ok parts)
parse_distinguished_name-normal dn [] e = absurd (parse_distinguished_name-ne-nil dn e)
parse_distinguished_name-normal dn (p ∷ parts) e =
    let clean = parse_distinguished_name-IsClean dn (p ∷ parts) e in
    (clean, parse_distinguished_name-format_dn p parts clean)
