-- ===== src/Ldap/Modify/KeySet.antt =====
-- Lists of keys as sets: pushing the values that are missing, and removing values.
use klldap.Base.{
  ◌≡◌, refl, sym, ap, ◌∙◌, true, not, ◌&&◌, ◌||◌, Bool-cases, inl, inr, List, [], ◌∷◌, ◌++◌,
  any-append, if◌then◌else◌, arith,
}
use klldap.Text.{Str, str_eq}
use klldap.Text.Case.{str_eq-eq}
use klldap.Ldap.Modify.Profile.{has_key, push_missing, remove_keys}

any-congruent : (keys : List Str) (k k' : Str) → k ≡ k' → has_key keys k ≡ has_key keys k'
any-congruent keys k k' e = ap (has_key keys) e

-- One pushed value adds that value, whether or not it was there.
has_key-push :
    (existing : List Str) (v k : Str)
    → has_key (if has_key existing v then existing else existing ++ (v ∷ [])) k
      ≡ (has_key existing k || str_eq v k)
has_key-push existing v k = elim (Bool-cases (has_key existing v)) [
  | inl there ↦ rw there (elim (Bool-cases (str_eq v k)) [
    | inl same ↦
        let here : has_key existing k ≡ true =
          any-congruent existing k v (sym (str_eq-eq v k same)) ∙ there in
        rw here refl
    | inr differs ↦ rw differs (ground arith)
  ])
  | inr new ↦ rw new (any-append _ existing (v ∷ []) ∙ ground arith)
]

pub has_key-push_missing :
    (existing new_vals : List Str) (k : Str)
    → has_key (push_missing existing new_vals) k ≡ (has_key existing k || has_key new_vals k)
unfolding push_missing
has_key-push_missing existing [] k = ground arith
has_key-push_missing existing (v ∷ vs) k =
    has_key-push_missing (if has_key existing v then existing else existing ++ (v ∷ [])) vs k
    ∙ rw (has_key-push existing v k) (ground arith)

pub has_key-remove_keys :
    (delete_vals existing : List Str) (k : Str)
    → has_key (remove_keys delete_vals existing) k
      ≡ (has_key existing k && not (has_key delete_vals k))
unfolding remove_keys
has_key-remove_keys delete_vals [] k = refl
has_key-remove_keys delete_vals (x ∷ xs) k =
    let rest = has_key-remove_keys delete_vals xs k in
    elim (Bool-cases (str_eq x k)) [
      | inl same ↦
          let alike = any-congruent delete_vals x k (str_eq-eq x k same) in
          elim (Bool-cases (has_key delete_vals x)) [
            | inl gone ↦ rw (gone, sym alike ∙ gone) (rest ∙ rw (sym alike ∙ gone) (ground arith))
            | inr kept ↦ rw (kept, sym alike ∙ kept, same) refl
          ]
      | inr differs ↦ elim (Bool-cases (has_key delete_vals x)) [
        | inl gone ↦ rw (gone, differs) rest
        | inr kept ↦ rw (kept, differs) rest
      ]
    ]
