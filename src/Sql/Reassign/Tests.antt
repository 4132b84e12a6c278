-- ===== src/Sql/Reassign/Tests.antt =====
-- Two users who get new numbers, past the end of the range.
use klldap.Base.{◌≡◌, refl, true, false, List, [], ◌∷◌}
use klldap.Text.{Str, codes, str_eq}
use klldap.Text.Case.{str_eq_iff}
use klldap.Domain.{ℤ, pos, negsuc}
use klldap.Sql.Posix.{PosixSettings}
use klldap.Sql.Posix.Order.{succ, wrapping_succ, is_i64_max}
use klldap.Sql.Reassign.{Tables, upsert, assign_each, numbered, reassign_user_uid_numbers}
use klldap.Sql.Reassign.Laws.{value_of, AreNumbered, reassign_user_uid_numbers-AreNumbered}

abbrev digit : ℤ → Str
digit (pos n) = n ∷ []
digit (negsuc n) = 0 ∷ []

abbrev settings : PosixSettings
settings = record {
  user_uidnumber_assign = true;
  user_uidnumber_start = pos 7;
  user_uidnumber_max = pos 7;
  user_gidnumber_assign = false;
  user_gidnumber_start = pos 7;
  user_loginshell_assign = false;
  user_loginshell_default = [];
  user_homedirectory_assign = false;
  user_homedirectory_prefix = [];
  group_gidnumber_assign = false;
  group_gidnumber_start = pos 7;
  group_gidnumber_max = pos 7;
}

abbrev users : List Str
users = codes "bob" ∷ codes "alice" ∷ []

abbrev now : Str → Unit {0}
now u = tt

abbrev before : Tables Str Unit
before = record {
  attributes = (codes "bob", codes "uidnumber", 3 ∷ []) ∷ [];
  modified_dates = (codes "bob", tt) ∷ (codes "alice", tt) ∷ [];
}

past_end-run : reassign_user_uid_numbers str_eq now digit settings users before ≡ record {
  attributes =
      (codes "bob", codes "uidnumber", 7 ∷ []) ∷ (codes "alice", codes "uidnumber", 8 ∷ []) ∷ [];
  modified_dates = before.modified_dates;
}
unfolding reassign_user_uid_numbers assign_each numbered upsert wrapping_succ succ is_i64_max str_eq
past_end-run = refl

reassign_user_uid_numbers-AreNumbered_example :
    AreNumbered str_eq str_eq_iff now digit settings
      (pos 7)
      users
      (reassign_user_uid_numbers str_eq now digit settings users before).attributes
    × ((owner : Str) (other : Str)
        → str_eq other (codes "uidnumber") ≡ false
        → value_of str_eq str_eq_iff owner other
            (reassign_user_uid_numbers str_eq now digit settings users before).attributes
          ≡ value_of str_eq str_eq_iff owner other before.attributes)
unfolding is_i64_max succ str_eq
reassign_user_uid_numbers-AreNumbered_example =
    reassign_user_uid_numbers-AreNumbered str_eq str_eq_iff now digit settings users before refl
      (refl, (refl, refl)) (refl, (refl, tt))
