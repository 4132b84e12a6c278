-- ===== src/Sql/Posix/Checks.antt =====
-- What the checks of the numbers let through.
use klldap.Base.{
  ◌≡◌, refl, sym, subst, ◌∙◌, Bool, true, false, not, ◌&&◌, ◌||◌, Option, none, some, List, [], ◌∷◌,
  ◌++◌, Result, ok, err, >>=-eq-ok, arith, if◌then◌else◌,
}
use klldap.Text.{Str}
use klldap.Domain.{ℤ, Attribute, DomainError}
use klldap.Sql.Posix.Attributes.{
  is_in_range, is_zero, is_uid, is_gid, integer_of, refuse_if, refuse_taken, check_new_user,
  check_user_number, check_new_user_numbers,
}

refuse_if-ok : (b : Bool) (e : DomainError) → refuse_if b e ≡ ok tt → b ≡ false
refuse_if-ok true e h = cc h
refuse_if-ok false e h = refl

if_or : {A : Type 0} (a b : Bool) (x y : A) → a ≡ true → (if a || b then x else y) ≡ x
if_or true b x y h = refl
if_or false b x y h = cc h

module _ (i64_to_string : ℤ → Str) (uid_taken gid_taken : ℤ → Result DomainError Bool) where
  refuse_taken-ok :
      (v : ℤ) (answer : Result DomainError Bool)
      → refuse_taken i64_to_string uid_taken gid_taken v answer ≡ ok tt
      → answer ≡ ok false
  refuse_taken-ok v (err e) h = cc h
  refuse_taken-ok v (ok false) h = refl
  refuse_taken-ok v (ok true) h = cc h

  check_user_number-ok :
      (name : Str) (v : ℤ)
      → is_uid name ≡ true
      → check_user_number i64_to_string uid_taken gid_taken name v ≡ ok tt
      → ((is_zero v || is_in_range v) ≡ true) × (uid_taken v ≡ ok false)
  check_user_number-ok name v uid h =
      let (ranged, passes, rest) =
        >>=-eq-ok (refuse_if (not (is_zero v) && not (is_in_range v)) _) _ h in
      let inside = refuse_if-ok (not (is_zero v) && not (is_in_range v)) _ passes in
      (ground (arith, inside), refuse_taken-ok v (uid_taken v) (rw uid at rest))

  check_new_user-some :
      (name : Str) (o : Option ℤ) (v : ℤ)
      → o ≡ some v
      → is_uid name ≡ true
      → check_new_user i64_to_string uid_taken gid_taken name o ≡ ok tt
      → check_user_number i64_to_string uid_taken gid_taken name v ≡ ok tt
  check_new_user-some name none v e uid h = cc e
  check_new_user-some name (some w) v e uid h =
      let same : w ≡ v = cc e in
      subst (λ x. check_user_number i64_to_string uid_taken gid_taken name x ≡ ok tt) same
        (sym (if_or (is_uid name) (is_gid name) _ _ uid) ∙ h)

  check_new_user_numbers-tail :
      {D : Type 0} (before later : List (Attribute D))
      → check_new_user_numbers i64_to_string uid_taken gid_taken (before ++ later) ≡ ok tt
      → check_new_user_numbers i64_to_string uid_taken gid_taken later ≡ ok tt
  unfolding check_new_user_numbers
  check_new_user_numbers-tail [] later h = h
  check_new_user_numbers-tail (a ∷ before) later h =
      let (checked, _, rest) =
        >>=-eq-ok
          (check_new_user i64_to_string uid_taken gid_taken a.name.text (integer_of a.value)) _ h in
      check_new_user_numbers-tail before later rest

-- If the checks of a new user's attributes pass, every attribute among them with the name `uidnumber` and
-- one integer has a number that is zero or between 3000 and 60000, and that the database has for no user.
pub check_new_user_numbers-range :
    {D : Type 0} (i64_to_string : ℤ → Str) (uid_taken gid_taken : ℤ → Result DomainError Bool)
    (before later : List (Attribute D)) (a : Attribute D) (v : ℤ)
    → check_new_user_numbers i64_to_string uid_taken gid_taken (before ++ (a ∷ later)) ≡ ok tt
    → integer_of a.value ≡ some v
    → is_uid a.name.text ≡ true
    → ((is_zero v || is_in_range v) ≡ true) × (uid_taken v ≡ ok false)
unfolding check_new_user_numbers
check_new_user_numbers-range i64_to_string uid_taken gid_taken before later a v h value uid =
    let (checked, passes, _) =
      >>=-eq-ok (check_new_user i64_to_string uid_taken gid_taken a.name.text (integer_of a.value))
        _ (check_new_user_numbers-tail i64_to_string uid_taken gid_taken before (a ∷ later) h) in
    check_user_number-ok i64_to_string uid_taken gid_taken a.name.text v uid
      (check_new_user-some i64_to_string uid_taken gid_taken a.name.text _ v value uid passes)
