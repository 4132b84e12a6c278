-- ===== src/Sql/Reassign/Laws.antt =====
-- What every owner has after an assignment.
use klldap.Base.{
  ◌≡◌, refl, ap, ◌∙◌, Bool, true, false, ◌&&◌, Option, none, some, List, [], ◌∷◌, any, All, arith,
  Bool-cases, inl, inr, if◌then◌else◌, ◌↔◌,
}
use klldap.Text.{Str, codes, str_eq}
use klldap.Text.Case.{str_eq-eq, str_eq_refl}
use klldap.Domain.{ℤ}
use klldap.Sql.Posix.{PosixSettings}
use klldap.Sql.Posix.Order.{succ, is_i64_max, wrapping_succ-small}
use klldap.Sql.Reassign.{Tables, upsert, assign_each, numbered, reassign_user_uid_numbers}

-- `same` is the equality of the owners.
module _ {K : Type 0} (same : K → K → Bool)
    (same_iff : (a b : K) → (same a b ≡ true) ↔ (a ≡ b)) where
  -- The value in the row of the owner with the name.
  abbrev pub value_of : K → Str → List (K × Str × Str) → Option Str
  value_of owner name [] = none
  value_of owner name ((k, n, v) ∷ rows) =
      let later = value_of owner name rows in
      if same owner k && str_eq name n then some v else later

  same_right : (owner k₁ k₂ : K) → same k₁ k₂ ≡ true → same owner k₁ ≡ same owner k₂
  same_right owner k₁ k₂ h = ap (same owner) ((same_iff k₁ k₂).0 h)

  str_eq_right : (s t₁ t₂ : Str) → str_eq t₁ t₂ ≡ true → str_eq s t₁ ≡ str_eq s t₂
  str_eq_right s t₁ t₂ h = ap (str_eq s) (str_eq-eq t₁ t₂ h)

  pub value_of-upsert :
      (k : K) (n v : Str) (owner : K) (name : Str) (rows : List (K × Str × Str))
      → value_of owner name (upsert same k n v rows)
        ≡ (if same owner k && str_eq name n then some v else value_of owner name rows)
  unfolding upsert
  value_of-upsert k n v owner name [] = refl
  value_of-upsert k n v owner name ((k₂, n₂, v₂) ∷ rows) =
      elim (Bool-cases (same k k₂ && str_eq n n₂)) [
        | inl hit ↦
            let keys : same owner k ≡ same owner k₂ = same_right owner k k₂ (ground (arith, hit)) in
            let names : str_eq name n ≡ str_eq name n₂ =
              str_eq_right name n n₂ (ground (arith, hit)) in
            rw (hit, keys, names) (ground arith)
        | inr differs ↦ elim (Bool-cases (same owner k && str_eq name n)) [
          | inr other ↦ rw (differs, value_of-upsert k n v owner name rows, other) refl
          | inl hit ↦
              let keys : same owner k₂ ≡ same k k₂ =
                ap (λ x. same x k₂) ((same_iff owner k).0 (ground (arith, hit))) in
              let names : str_eq name n₂ ≡ str_eq n n₂ =
                ap (λ x. str_eq x n₂) (str_eq-eq name n (ground (arith, hit))) in
              rw (differs, value_of-upsert k n v owner name rows, hit, keys, names, differs) refl
        ]
      ]

  -- No pair is for the owner.
  abbrev pub is_assigned : K → List (K × Str) → Bool
  is_assigned owner assigned = any (λ p. same owner p.0) assigned

  -- No owner stands twice.
  abbrev pub AreDistinct : List (K × Str) → Type 0
  AreDistinct [] = Unit
  AreDistinct (p ∷ assigned) = (is_assigned p.0 assigned ≡ false) × AreDistinct assigned

  module _ {D : Type 0} (now : K → D) (name : Str) where
    -- An assignment changes no other attribute and no other owner.
    pub value_of-assign_each_other :
        (assigned : List (K × Str)) (t : Tables K D) (owner : K) (other : Str)
        → (is_assigned owner assigned && str_eq other name) ≡ false
        → value_of owner other (assign_each same now name assigned t).attributes
          ≡ value_of owner other t.attributes
    unfolding assign_each
    value_of-assign_each_other [] t owner other h = refl
    value_of-assign_each_other ((k, v) ∷ assigned) t owner other h =
        value_of-assign_each_other assigned _ owner other (ground (arith, h))
        ∙ (value_of-upsert k name v owner other t.attributes ∙ ground (arith, h))

    -- Every owner of an assignment gets its value.
    pub value_of-assign_each :
        (assigned : List (K × Str)) (t : Tables K D)
        → AreDistinct assigned
        → All
            (λ p. value_of p.0 name (assign_each same now name assigned t).attributes ≡ some p.1)
            assigned
    unfolding assign_each
    value_of-assign_each [] t d = tt
    value_of-assign_each ((k, v) ∷ assigned) t d = (
      value_of-assign_each_other assigned _ k name (rw d.0 refl)
          ∙ (value_of-upsert k name v k name t.attributes
              ∙ rw ((same_iff k k).1 refl, str_eq_refl name) refl),
      value_of-assign_each assigned _ d.1,
    )

  -- Counting from the number through the owners, and one further, stays below the largest i64.
  abbrev pub Fits : ℤ → List K → Type 0
  Fits next [] = is_i64_max next ≡ false
  Fits next (u ∷ users) = (is_i64_max next ≡ false) × Fits (succ next) users

  -- No user stands twice.
  abbrev pub AreDifferent : List K → Type 0
  AreDifferent [] = Unit
  AreDifferent (u ∷ users) = (any (same u) users ≡ false) × AreDifferent users

  module _ {D : Type 0} (now : K → D) (to_string : ℤ → Str) (settings : PosixSettings) where
    -- The users in turn have the numbers from the given one on.
    abbrev pub AreNumbered : ℤ → List K → List (K × Str × Str) → Type 0
    AreNumbered next [] rows = Unit
    AreNumbered next (u ∷ users) rows =
        (value_of u (codes "uidnumber") rows ≡ some (to_string next))
        × AreNumbered (succ next) users rows

    numbers : ℤ → List K → List (K × Str)
    numbers next [] = []
    numbers next (u ∷ users) = (u, to_string next) ∷ numbers (succ next) users

    numbered-Fits :
        (next : ℤ) (users : List K)
        → Fits next users
        → numbered to_string next users ≡ numbers next users
    unfolding numbered numbers
    numbered-Fits next [] f = refl
    numbered-Fits next (u ∷ users) f =
        rw (wrapping_succ-small next f.0, numbered-Fits (succ next) users f.1) refl

    is_assigned-numbers :
        (u : K) (next : ℤ) (users : List K)
        → is_assigned u (numbers next users) ≡ any (same u) users
    unfolding numbers
    is_assigned-numbers u next [] = refl
    is_assigned-numbers u next (k ∷ users) = rw (is_assigned-numbers u (succ next) users) refl

    numbers-AreDistinct :
        (next : ℤ) (users : List K) → AreDifferent users → AreDistinct (numbers next users)
    unfolding numbers
    numbers-AreDistinct next [] d = tt
    numbers-AreDistinct next (u ∷ users) d =
        (is_assigned-numbers u (succ next) users ∙ d.0, numbers-AreDistinct (succ next) users d.1)

    All-AreNumbered :
        (next : ℤ) (users : List K) (rows : List (K × Str × Str))
        → All (λ p. value_of p.0 (codes "uidnumber") rows ≡ some p.1) (numbers next users)
        → AreNumbered next users rows
    unfolding numbers
    All-AreNumbered next [] rows a = tt
    All-AreNumbered next (u ∷ users) rows a = (a.0, All-AreNumbered (succ next) users rows a.1)

    -- With assignment on, and where counting stays below the largest i64, the users that are found, each
    -- once, get the numbers from the start on in their order, and no other attribute of anyone changes.
    -- The maximum of the settings plays no part.
    pub reassign_user_uid_numbers-AreNumbered :
        (users : List K) (t : Tables K D)
        → settings.user_uidnumber_assign ≡ true
        → Fits settings.user_uidnumber_start users
        → AreDifferent users
        → AreNumbered settings.user_uidnumber_start users
            (reassign_user_uid_numbers same now to_string settings users t).attributes
          × ((owner : K) (other : Str)
              → str_eq other (codes "uidnumber") ≡ false
              → value_of owner other
                  (reassign_user_uid_numbers same now to_string settings users t).attributes
                ≡ value_of owner other t.attributes)
    unfolding reassign_user_uid_numbers
    reassign_user_uid_numbers-AreNumbered users t on fits different =
        let start = settings.user_uidnumber_start in
        let assigned = numbers start users in
        rw (on, numbered-Fits start users fits)
          (
            All-AreNumbered start users _ (
                value_of-assign_each now (codes "uidnumber") assigned t
                  (numbers-AreDistinct start users different)),
            λ owner other ne.
                value_of-assign_each_other now (codes "uidnumber") assigned t owner other
                  (rw ne (ground arith)),
          )
