-- ===== src/Ldap/Simplify/Laws.antt =====
-- `simplify` keeps the meaning of a conjunction or disjunction, and the first error.
use klldap.Base.{
  Bool, ◌&&◌, ◌||◌, all, any, true, false, ◌≡◌, refl, sym, ap, ◌∙◌, List, [], ◌∷◌, ◌++◌, map,
  retain, Result, ok, err, collect, ◌>>=◌, map_ok, arith, Bool-cases, inl, inr,
}
use klldap.Ldap.Error.{LdapResult}
use klldap.Ldap.Simplify.{is_kept, splice_all, pack, simplify}

-- The value of a list of filters under a binary operation.
abbrev pub total {ℓ} : {F : Type ℓ} → (Bool → Bool → Bool) → Bool → (F → Bool) → List F → Bool
total op unit meaning [] = unit
total op unit meaning (f ∷ fs) = op (meaning f) (total op unit meaning fs)

map_ok_id {ℓ κ} : {E : Type ℓ} {A : Type κ} (r : Result E A) → r ≡ map_ok (λ a. a) r
map_ok_id (ok a) = refl
map_ok_id (err x) = refl

-- Prepending to a result of a list.
abbrev pub cons_ok {ℓ κ} : {E : Type ℓ} {A : Type κ} → A → Result E (List A) → Result E (List A)
cons_ok f r = r >>= λ fs. ok (f ∷ fs)

cons_ok-map_ok {ℓ κ} :
    {E : Type ℓ} {A : Type κ} (f : A) (g : List A → List A) (r : Result E (List A))
    → cons_ok f (map_ok g r) ≡ map_ok (λ fs. f ∷ g fs) r
cons_ok-map_ok f g (ok fs) = refl
cons_ok-map_ok f g (err x) = refl

collect-ok-append :
    {F : Type 0} (fs : List F) (rs : List (LdapResult F))
    → collect (map ok fs ++ rs) ≡ map_ok (λ gs. fs ++ gs) (collect rs)
collect-ok-append [] rs = map_ok_id (collect rs)
collect-ok-append (f ∷ fs) rs =
    ap (cons_ok f) (collect-ok-append fs rs) ∙ cons_ok-map_ok f (λ gs. fs ++ gs) (collect rs)

module _ {F : Type 0} (op : Bool → Bool → Bool) (e : Bool) (left_unit : (b : Bool) → op e b ≡ b)
    (right_unit : (b : Bool) → op b e ≡ b) (assoc : (a b c : Bool) → op (op a b) c ≡ op a (op b c))
    (meaning : F → Bool) where
  abbrev value : List F → Bool
  value = total op e meaning

  value-append : (fs gs : List F) → value (fs ++ gs) ≡ op (value fs) (value gs)
  value-append [] gs = sym (left_unit (value gs))
  value-append (f ∷ fs) gs =
      ap (op (meaning f)) (value-append fs gs) ∙ sym (assoc (meaning f) (value fs) (value gs))

  value-cons_neutral :
      (f : F) (r : LdapResult (List F))
      → meaning f ≡ e
      → map_ok value r ≡ map_ok value (cons_ok f r)
  value-cons_neutral f (ok fs) h = ap ok (sym (ap (λ b. op b (value fs)) h ∙ left_unit (value fs)))
  value-cons_neutral f (err x) h = refl

  value-splice_one :
      (f : F) (ps : List F) (r s : LdapResult (List F))
      → value ps ≡ meaning f
      → map_ok value r ≡ map_ok value s
      → map_ok value (map_ok (λ gs. ps ++ gs) r) ≡ map_ok value (cons_ok f s)
  value-splice_one f ps (ok gs) (ok hs) h k =
      let same : value gs ≡ value hs = cc in ap ok (value-append ps gs ∙ cc (h, same))
  value-splice_one f ps (ok gs) (err x) h k = cc
  value-splice_one f ps (err x) (ok hs) h k = cc
  value-splice_one f ps (err x) (err y) h k = cc

  module _ (neutral : F → Bool) (parts : F → List F) (unit : F) (join : List F → F)
      (neutral_meaning : (f : F) → neutral f ≡ true → meaning f ≡ e)
      (parts_meaning : (f : F) → value (parts f) ≡ meaning f) (unit_meaning : meaning unit ≡ e)
      (join_meaning : (fs : List F) → meaning (join fs) ≡ value fs) where
    value-pack : (fs : List F) → meaning (pack unit join fs) ≡ value fs
    value-pack [] = unit_meaning
    value-pack (f ∷ []) = sym (right_unit (meaning f))
    value-pack (f ∷ (g ∷ fs)) = join_meaning (f ∷ (g ∷ fs))

    abbrev kept : List (LdapResult F) → List (LdapResult F)
    kept rs = splice_all parts (retain (is_kept neutral) rs)

    value-kept :
        (rs : List (LdapResult F)) → map_ok value (collect (kept rs)) ≡ map_ok value (collect rs)
    value-kept [] = refl
    value-kept (err x ∷ rs) = refl
    value-kept (ok f ∷ rs) = elim (Bool-cases (neutral f)) [
      | inl dropped ↦
          rw dropped (value-kept rs ∙ value-cons_neutral f (collect rs) (neutral_meaning f dropped))
      | inr stays ↦ rw stays (
          ap (map_ok value) (collect-ok-append (parts f) (kept rs))
          ∙ value-splice_one f (parts f) (collect (kept rs)) (collect rs) (parts_meaning f)
              (value-kept rs))
    ]

    value-pack_result :
        (r : LdapResult (List F))
        → map_ok meaning (r >>= λ res. ok (pack unit join res)) ≡ map_ok value r
    value-pack_result (ok fs) = ap ok (value-pack fs)
    value-pack_result (err x) = refl

    -- The simplified filter means what the filters mean together, and an error is the first one.
    pub simplify-meaning :
        (rs : List (LdapResult F))
        → map_ok meaning (simplify neutral parts unit join rs) ≡ map_ok value (collect rs)
    unfolding simplify
    simplify-meaning rs = value-pack_result (collect (kept rs)) ∙ value-kept rs

-- The value of the collected filters is the value of their collected meanings.
pub total-collect :
    {F : Type 0} (op : Bool → Bool → Bool) (e : Bool) (meaning : F → Bool)
    (rs : List (LdapResult F))
    → map_ok (total op e meaning) (collect rs)
      ≡ map_ok (total op e (λ b. b)) (collect (map (map_ok meaning) rs))
total-collect {F} op e meaning [] = refl
total-collect {F} op e meaning (err x ∷ rs) = refl
total-collect {F} op e meaning (ok f ∷ rs) = step (collect rs) _ (total-collect op e meaning rs)
  where
    step :
        (r : LdapResult (List F)) (s : LdapResult (List Bool))
        → map_ok (total op e meaning) r ≡ map_ok (total op e (λ b. b)) s
        → map_ok (total op e meaning) (cons_ok f r)
          ≡ map_ok (total op e (λ b. b)) (cons_ok (meaning f) s)
    step (ok fs) (ok bs) h =
        let same : total op e meaning fs ≡ total op e (λ b. b) bs = cc in
        ap (λ v. ok (op (meaning f) v)) same
    step (ok fs) (err y) h = cc
    step (err x) (ok bs) h = cc
    step (err x) (err y) h = cc

pub total-eq-all {ℓ} : {F : Type ℓ} (p : F → Bool) (fs : List F) → total ◌&&◌ true p fs ≡ all p fs
total-eq-all p [] = refl
total-eq-all p (f ∷ fs) = rw (total-eq-all p fs)

pub total-eq-any {ℓ} : {F : Type ℓ} (p : F → Bool) (fs : List F) → total ◌||◌ false p fs ≡ any p fs
total-eq-any p [] = refl
total-eq-any p (f ∷ fs) = rw (total-eq-any p fs)

pub and_assoc : (a b c : Bool) → ((a && b) && c) ≡ (a && (b && c))
and_assoc a b c = ground arith

pub or_assoc : (a b c : Bool) → ((a || b) || c) ≡ (a || (b || c))
or_assoc a b c = ground arith

pub and_right : (b : Bool) → (b && true) ≡ b
and_right b = ground arith

pub or_right : (b : Bool) → (b || false) ≡ b
or_right b = ground arith
