-- ===== src/Sql/Posix/Tests.antt =====
-- Numbers for a few new users.
use klldap.Base.{◌≡◌, refl, Bool, true, false, ◌||◌, [], ◌∷◌, ◌==◌, Result, ok}
use klldap.Text.{Str, codes, str_eq}
use klldap.Domain.{ℤ, pos, negsuc, AttributeValue, singleton, Attribute, DomainError}
use klldap.Sql.Posix.Order.{leq, is_i64_max}
use klldap.Sql.Posix.{PosixSettings, found, next_available_number}
use klldap.Sql.Posix.Attributes.{is_zero, is_in_range, check_new_user_numbers}
use klldap.Sql.Posix.Laws.{is_exhausted, next_available_number-ends, next_available_number-smallest}
use klldap.Sql.Posix.Checks.{check_new_user_numbers-range}

abbrev print : ℤ → Str
print (pos n) = n ∷ []
print (negsuc n) = []

-- The first number is taken.
abbrev first_taken : ℤ → Bool
first_taken (pos n) = n == 3000
first_taken (negsuc n) = false

abbrev taken : ℤ → Result DomainError Bool
taken z = ok (first_taken z)

below_max : is_i64_max (pos 3001) ≡ false
unfolding is_i64_max
below_max = refl

next_available_number-ends_example :
    is_exhausted (next_available_number print taken (codes "uidNumber") (pos 3000) (pos 3001))
    ≡ false
next_available_number-ends_example =
    next_available_number-ends print taken (codes "uidNumber") (pos 3000) (pos 3001) below_max

up : leq (pos 3000) (pos 3001) ≡ true
unfolding leq
up = refl

down : leq (pos 3001) (pos 3001) ≡ true
unfolding leq
down = refl

next_available_number-smallest_example :
    (r : ℤ) × (next_available_number print taken (codes "uidNumber") (pos 3000) (pos 3001)
      ≡ found r)
    × (leq (pos 3000) r ≡ true)
    × (leq r (pos 3001) ≡ true)
    × (first_taken r ≡ false)
next_available_number-smallest_example =
    next_available_number-smallest print first_taken (codes "uidNumber") (pos 3000) (pos 3001)
      (pos 3001) below_max up down refl

abbrev uid_3001 : Attribute Unit
uid_3001 = record {
  name = record { text = codes "uidnumber" };
  value = AttributeValue.integer (singleton (pos 3001));
}

passes : check_new_user_numbers print taken taken (uid_3001 ∷ []) ≡ ok tt
unfolding check_new_user_numbers str_eq leq
passes = refl

uid-named : str_eq uid_3001.name.text (codes "uidnumber") ≡ true
unfolding str_eq
uid-named = refl

check_new_user_numbers-range_example :
    ((is_zero (pos 3001) || is_in_range (pos 3001)) ≡ true) × (taken (pos 3001) ≡ ok false)
check_new_user_numbers-range_example =
    check_new_user_numbers-range print taken taken [] [] uid_3001 (pos 3001) passes refl uid-named

abbrev settings : PosixSettings
settings = record {
  user_uidnumber_assign = true;
  user_uidnumber_start = pos 3000;
  user_uidnumber_max = pos 3999;
  user_gidnumber_assign = true;
  user_gidnumber_start = pos 3000;
  user_loginshell_assign = false;
  user_loginshell_default = codes "/bin/bash";
  user_homedirectory_assign = true;
  user_homedirectory_prefix = codes "/home";
  group_gidnumber_assign = true;
  group_gidnumber_start = pos 3000;
  group_gidnumber_max = pos 3999;
}
