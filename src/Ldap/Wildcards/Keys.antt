-- ===== src/Ldap/Wildcards/Keys.antt =====
-- The names that the loops of `expand_attribute_wildcards` collect, up to case.
use klldap.Base.{
  ◌≡◌, refl, sym, ap, ◌∙◌, Bool, true, false, not, ◌&&◌, ◌||◌, String, subst, all, Option, none,
  some, List, [], ◌∷◌, any, retain, arith, any-append, Bool-cases, inl, inr,
}
use klldap.Text.{Str, codes, lower, str_eq, to_ascii_lowercase, eq_ignore_ascii_case}
use klldap.Text.Case.{str_eq-eq, eq_ignore_ascii_case-lowercase}
use klldap.Schema.{AttributeSchema}
use klldap.Ldap.Fields.{
  LogicalAttr, AttributeMap, one_of, get_preferred_ldap_name, resolve_attribute, means_operational,
  is_operational,
}
use klldap.Ldap.Wildcards.{
  always_operational, ignore_on_plus, push_names, collect_operational, push_new, is_resolved,
  goes_operational, collect_standard, retain_unseen,
}

-- One of the texts is the key in lower case.
abbrev pub names : Str → List Str → Bool
names key xs = any (λ s. str_eq (to_ascii_lowercase s) key) xs

-- Two texts that equal a common third one are equal.
str_eq_replace : (s k : Str) (p : Str → Bool) → str_eq s k ≡ true → p s ≡ p k
str_eq_replace s k p h = ap p (str_eq-eq s k h)

names-ignore_case :
    (name : Str) (xs : List Str)
    → any (λ k. eq_ignore_ascii_case k name) xs ≡ names (to_ascii_lowercase name) xs
names-ignore_case name [] = refl
names-ignore_case name (x ∷ xs) =
    rw (eq_ignore_ascii_case-lowercase x name, names-ignore_case name xs)

-- The guarded push adds the name, up to case, and nothing else.
pub names-push_new :
    (key name : Str) (xs : List Str)
    → names key (push_new name xs) ≡ (names key xs || str_eq (to_ascii_lowercase name) key)
unfolding push_new
names-push_new key name xs = elim (Bool-cases (names (to_ascii_lowercase name) xs)) [
  | inr new ↦
      rw (names-ignore_case name xs, new, any-append (λ s. str_eq (to_ascii_lowercase s) key) xs)
        (ground arith)
  | inl old ↦ elim (Bool-cases (str_eq (to_ascii_lowercase name) key)) [
    | inr other ↦ rw (names-ignore_case name xs, old) (ground (arith, other))
    | inl hit ↦
        let there : names key xs ≡ true =
          sym (str_eq_replace (to_ascii_lowercase name) key (λ k. names k xs) hit) ∙ old in
        rw (names-ignore_case name xs, old) (ground (arith, there))
  ]
]

-- Filtering on the lower-case form filters the names.
pub names-retain :
    (p : Str → Bool) (key : Str) (xs : List Str)
    → names key (retain (λ s. p (to_ascii_lowercase s)) xs) ≡ (names key xs && p key)
names-retain p key [] = refl
names-retain p key (x ∷ xs) = elim (Bool-cases (str_eq (to_ascii_lowercase x) key)) [
  | inr other ↦ ground (arith, names-retain p key xs)
  | inl hit ↦
      let same : p (to_ascii_lowercase x) ≡ p key = str_eq_replace _ key p hit in
      ground (arith, names-retain p key xs)
]

-- Dropping the names seen before keeps every other name.
names-retain_unseen :
    (key : Str) (seen xs : List Str)
    → names key (retain_unseen seen xs) ≡ (names key xs && not (any (λ t. str_eq t key) seen))
unfolding retain_unseen
names-retain_unseen key seen [] = refl
names-retain_unseen key seen (x ∷ xs) =
    let lower = to_ascii_lowercase x in
    elim (Bool-cases (any (λ t. str_eq t lower) seen)) [
      | inl old ↦ elim (Bool-cases (str_eq lower key)) [
        | inr other ↦ ground (arith, names-retain_unseen key seen xs)
        | inl hit ↦
            let same : any (λ t. str_eq t key) seen ≡ true =
              sym (str_eq_replace lower key (λ k. any (λ t. str_eq t k) seen) hit) ∙ old in
            ground (arith, names-retain_unseen key seen xs)
      ]
      | inr new ↦ elim (Bool-cases (str_eq lower key)) [
        | inr other ↦ ground (arith, names-retain_unseen key (lower ∷ seen) xs)
        | inl hit ↦
            let same : any (λ t. str_eq t key) seen ≡ false =
              sym (str_eq_replace lower key (λ k. any (λ t. str_eq t k) seen) hit) ∙ new in
            ground (arith, names-retain_unseen key (lower ∷ seen) xs)
      ]
    ]

pub names-retain_all_unseen :
    (key : Str) (xs : List Str) → names key (retain_unseen [] xs) ≡ names key xs
names-retain_all_unseen key xs = ground (arith, names-retain_unseen key [] xs)

-- Some attribute of the schema that is not operational goes by the name.
abbrev pub names_standard : AttributeMap → Str → List AttributeSchema → Bool
names_standard manager key attrs =
    any
      (λ attr.
        not (is_operational manager (get_preferred_ldap_name attr))
        && str_eq (to_ascii_lowercase (get_preferred_ldap_name attr)) key)
      attrs

-- A name that the list does not hold goes to the operational keys when its meaning is operational.
goes_operational-free :
    (manager : AttributeMap) (name : Str)
    → one_of (to_ascii_lowercase name) always_operational ≡ false
    → goes_operational manager name ≡ is_operational manager name
unfolding is_operational
goes_operational-free manager name free = rw free (at_meaning (resolve_attribute manager name))
  where
    at_meaning :
        (r : Option (LogicalAttr × Str))
        → (is_resolved r && (means_operational r || false)) ≡ means_operational r
    at_meaning none = refl
    at_meaning (some r) = ground arith

-- Outside the operational names of the list, the loop over the schema collects the names of the
-- attributes that are not operational.
pub names-collect_standard :
    (manager : AttributeMap) (key : Str) (attrs : List AttributeSchema) (keys : List Str)
    → one_of key always_operational ≡ false
    → names key (collect_standard manager attrs keys)
      ≡ (names key keys || names_standard manager key attrs)
unfolding collect_standard
names-collect_standard manager key [] keys free = ground arith
names-collect_standard manager key (attr ∷ attrs) keys free =
    let preferred = get_preferred_ldap_name attr in
    names-collect_standard manager key attrs _ free
    ∙ (elim (Bool-cases (str_eq (to_ascii_lowercase preferred) key)) [
      | inr other ↦ ground (arith, names-push_new key preferred keys)
      | inl hit ↦
          let unlisted : one_of (to_ascii_lowercase preferred) always_operational ≡ false =
            str_eq_replace _ key (λ k. one_of k always_operational) hit ∙ free in
          rw (goes_operational-free manager preferred unlisted)
            (ground (arith, names-push_new key preferred keys))
    ])

-- Some attribute of the schema that is operational goes by the name.
abbrev pub names_operational : AttributeMap → Str → List AttributeSchema → Bool
names_operational manager key attrs =
    any
      (λ attr.
        is_operational manager (get_preferred_ldap_name attr)
        && str_eq (to_ascii_lowercase (get_preferred_ldap_name attr)) key)
      attrs

names-collect_operational :
    (manager : AttributeMap) (key : Str) (attrs : List AttributeSchema) (keys : List Str)
    → one_of key always_operational ≡ false
    → names key (collect_operational manager attrs keys)
      ≡ (names key keys || names_operational manager key attrs)
unfolding collect_operational
names-collect_operational manager key [] keys free = ground arith
names-collect_operational manager key (attr ∷ attrs) keys free =
    let preferred = get_preferred_ldap_name attr in
    names-collect_operational manager key attrs _ free
    ∙ (elim (Bool-cases (str_eq (to_ascii_lowercase preferred) key)) [
      | inr other ↦ ground (arith, names-push_new key preferred keys)
      | inl hit ↦
          let unlisted : one_of (to_ascii_lowercase preferred) always_operational ≡ false =
            str_eq_replace _ key (λ k. one_of k always_operational) hit ∙ free in
          rw (goes_operational-free manager preferred unlisted)
            (ground (arith, names-push_new key preferred keys))
    ])

-- One of the names, in lower case, is the key.
abbrev lower_one_of : Str → List String → Bool
lower_one_of key ns = any (λ n. str_eq (to_ascii_lowercase (codes n)) key) ns

names-push_names :
    (key : Str) (ns : List String) (keys : List Str)
    → names key (push_names ns keys) ≡ (names key keys || lower_one_of key ns)
unfolding push_names
names-push_names key [] keys = ground arith
names-push_names key (n ∷ ns) keys =
    names-push_names key ns (push_new (codes n) keys)
    ∙ ground (arith, names-push_new key (codes n) keys)

always_operational-lower :
    (key : Str) → lower_one_of key always_operational ≡ one_of key always_operational
unfolding to_ascii_lowercase lower
always_operational-lower key = refl

-- The operational names before the last filter: those of the list and of the schema.
pub names-listed_operational :
    (manager : AttributeMap) (key : Str) (attrs : List AttributeSchema)
    → names key (push_names always_operational (collect_operational manager attrs []))
      ≡ (one_of key always_operational || names_operational manager key attrs)
names-listed_operational manager key attrs =
    names-push_names key always_operational _
    ∙ (rw (always_operational-lower key) (elim (Bool-cases (one_of key always_operational)) [
      | inl listed ↦ rw listed (ground arith)
      | inr free ↦ ground (arith, names-collect_operational manager key attrs [] free)
    ]))

one_of-lower :
    (x : Str) (ns : List String)
    → all (λ n. str_eq (to_ascii_lowercase (codes n)) (codes n)) ns ≡ true
    → one_of x ns ≡ true
    → to_ascii_lowercase x ≡ x
one_of-lower x [] low h = cc
one_of-lower x (n ∷ ns) low h = elim (Bool-cases (str_eq (codes n) x)) [
  | inr other ↦ one_of-lower x ns (ground (arith, low)) (ground (arith, h, other))
  | inl hit ↦
      let same : codes n ≡ x = str_eq-eq (codes n) x hit in
      let low_n : str_eq (to_ascii_lowercase (codes n)) (codes n) ≡ true = ground (arith, low) in
      subst (λ s. to_ascii_lowercase s ≡ s) same (str_eq-eq _ _ low_n)
]

ignore_on_plus-lower :
    all (λ n. str_eq (to_ascii_lowercase (codes n)) (codes n)) ignore_on_plus ≡ true
unfolding to_ascii_lowercase lower str_eq
ignore_on_plus-lower = refl

-- The filter on the spelling takes away no name outside its list.
pub names-not_ignored :
    (key : Str) (xs : List Str)
    → one_of key ignore_on_plus ≡ false
    → names key (retain (λ k. not (one_of k ignore_on_plus)) xs) ≡ names key xs
names-not_ignored key [] free = refl
names-not_ignored key (x ∷ xs) free = elim (Bool-cases (one_of x ignore_on_plus)) [
  | inr kept ↦ ground (arith, kept, names-not_ignored key xs free)
  | inl gone ↦ elim (Bool-cases (str_eq (to_ascii_lowercase x) key)) [
    | inr other ↦ ground (arith, gone, other, names-not_ignored key xs free)
    | inl hit ↦
        let same : x ≡ key =
          sym (one_of-lower x ignore_on_plus ignore_on_plus-lower gone) ∙ str_eq-eq _ key hit in
        let absurd : one_of x ignore_on_plus ≡ false = rw same free in ground (arith, gone, absurd)
  ]
]
