-- ===== src/Access/Visible.antt =====
-- What the restricted lister shows of the schema.
use klldap.Base.{
  ◌≡◌, refl, ap, Bool, true, false, none, some, ◌>>=◌, Bool-cases, inl, inr, List, [], ◌∷◌, All,
  retain, Result, ok, err,
}
use klldap.Auth.{UserId, ValidationResults, can_read_all}
use klldap.Schema.{AttributeSchema, Schema}
use klldap.Domain.{DomainError}
use klldap.Access.{get_user_restricted_lister_handler, filter_schema, get_schema}

abbrev pub IsVisible : AttributeSchema → Type 0
IsVisible a = a.is_visible ≡ true

All-retain :
    (attributes : List AttributeSchema) → All IsVisible (retain (λ a. a.is_visible) attributes)
All-retain [] = tt
All-retain (a ∷ attributes) = elim (Bool-cases a.is_visible) [
  | inl seen ↦ rw seen (refl, All-retain attributes)
  | inr unseen ↦ rw unseen (All-retain attributes)
]

abbrev pub OnlyVisible : {P : Type 0} → Schema P → Type 0
OnlyVisible schema =
    All IsVisible schema.user_attributes.attributes
    × All IsVisible schema.group_attributes.attributes

filter_schema-none :
    {P : Type 0} (s : Result DomainError (Schema P)) → (s >>= λ x. ok (filter_schema none x)) ≡ s
filter_schema-none (ok x) = refl
filter_schema-none (err e) = refl

-- The visible attributes are the same, in their order, and everything but the attributes of users and
-- groups is equal.
abbrev pub AgreesOnVisible : {P : Type 0} → Schema P → Schema P → Type 0
AgreesOnVisible x y =
    (retain (λ a. a.is_visible) x.user_attributes.attributes
      ≡ retain (λ a. a.is_visible) y.user_attributes.attributes)
    × (retain (λ a. a.is_visible) x.group_attributes.attributes
        ≡ retain (λ a. a.is_visible) y.group_attributes.attributes)
    × (x.system_attributes ≡ y.system_attributes)
    × (x.posix_settings ≡ y.posix_settings)
    × (x.extra_user_object_classes ≡ y.extra_user_object_classes)
    × (x.extra_group_object_classes ≡ y.extra_group_object_classes)

retain_idem : {A : Type 0} (p : A → Bool) (xs : List A) → retain p (retain p xs) ≡ retain p xs
retain_idem p [] = refl
retain_idem p (x ∷ xs) = elim (Bool-cases (p x)) [
  | inl seen ↦ rw seen (rw seen (ap (λ l. x ∷ l) (retain_idem p xs)))
  | inr unseen ↦ rw unseen (retain_idem p xs)
]

-- What a user is shown, who may read all users or not, where the handler inside answers `inner`.
abbrev pub IsShown :
    {P : Type 0} → Bool → Result DomainError (Schema P) → Result DomainError (Schema P) → Type 0
IsShown true inner shown = shown ≡ inner
IsShown false (err e) shown = shown ≡ err e
IsShown {P} false (ok x) shown =
    (schema : Schema P) × (shown ≡ ok schema) × OnlyVisible schema × AgreesOnVisible schema x

IsShown-filter_schema :
    {P : Type 0} (u : UserId) (inner : Result DomainError (Schema P))
    → IsShown false inner (inner >>= λ x. ok (filter_schema (some u) x))
IsShown-filter_schema u (err e) = refl
IsShown-filter_schema u (ok x) = (
  filter_schema (some u) x,
  refl,
  (All-retain x.user_attributes.attributes, All-retain x.group_attributes.attributes),
  (
    retain_idem (λ a. a.is_visible) x.user_attributes.attributes,
    retain_idem (λ a. a.is_visible) x.group_attributes.attributes,
    refl,
    refl,
    refl,
    refl,
  ),
)

-- A bound user who may read all users gets what the handler inside answers. Any other gets its error, or,
-- where it has a schema, a schema in which every attribute of users and groups is visible, which has the
-- same visible ones in the same order, and which is the same in everything else.
pub get_schema-visible :
    {H P : Type 0} (handler : H) (r : ValidationResults) (inner : H → Result DomainError (Schema P))
    → IsShown
        (can_read_all r)
        (inner handler)
        (get_schema (get_user_restricted_lister_handler handler r) inner)
unfolding get_schema get_user_restricted_lister_handler
get_schema-visible handler r inner = elim (Bool-cases (can_read_all r)) [
  | inl all_seen ↦ rw all_seen (filter_schema-none (inner handler))
  | inr own ↦ rw own (IsShown-filter_schema r.user (inner handler))
]
