-- ===== src/Handlers/Meaning.antt =====
-- The meaning of a request filter: its connectives over the truth of its leaves.
use mathlib.Core.Bool.{Bool, ◌&&◌, ◌||◌}
use mathlib.Core.Bool
use klldap.Base.{◌≡◌, refl, List, [], ◌∷◌, all, any}
use klldap.Handlers.{
  UserRequestFilter, UserFilters, GroupRequestFilter, GroupFilters, user_list, user_vec, group_list,
  group_vec,
}

-- `holds` says of a leaf, a filter with no connective, whether it is true of the user at hand.
abbrev mutual
  pub user_meaning : {D : Type 0} → (UserRequestFilter D → Bool) → UserRequestFilter D → Bool
  user_meaning holds UserRequestFilter.true = Bool.true
  user_meaning holds UserRequestFilter.false = Bool.false
  user_meaning holds (UserRequestFilter.and fs) = all_users holds fs
  user_meaning holds (UserRequestFilter.or fs) = any_user holds fs
  user_meaning holds (UserRequestFilter.not f) = Bool.not (user_meaning holds f)
  user_meaning holds leaf = holds leaf

  pub all_users : {D : Type 0} → (UserRequestFilter D → Bool) → UserFilters D → Bool
  all_users holds UserFilters.nil = Bool.true
  all_users holds (UserFilters.cons f fs) = user_meaning holds f && all_users holds fs

  pub any_user : {D : Type 0} → (UserRequestFilter D → Bool) → UserFilters D → Bool
  any_user holds UserFilters.nil = Bool.false
  any_user holds (UserFilters.cons f fs) = user_meaning holds f || any_user holds fs

abbrev mutual
  pub group_meaning : {D : Type 0} → (GroupRequestFilter D → Bool) → GroupRequestFilter D → Bool
  group_meaning holds GroupRequestFilter.true = Bool.true
  group_meaning holds GroupRequestFilter.false = Bool.false
  group_meaning holds (GroupRequestFilter.and fs) = all_groups holds fs
  group_meaning holds (GroupRequestFilter.or fs) = any_group holds fs
  group_meaning holds (GroupRequestFilter.not f) = Bool.not (group_meaning holds f)
  group_meaning holds leaf = holds leaf

  pub all_groups : {D : Type 0} → (GroupRequestFilter D → Bool) → GroupFilters D → Bool
  all_groups holds GroupFilters.nil = Bool.true
  all_groups holds (GroupFilters.cons f fs) = group_meaning holds f && all_groups holds fs

  pub any_group : {D : Type 0} → (GroupRequestFilter D → Bool) → GroupFilters D → Bool
  any_group holds GroupFilters.nil = Bool.false
  any_group holds (GroupFilters.cons f fs) = group_meaning holds f || any_group holds fs

module _ {D : Type 0} (holds : UserRequestFilter D → Bool) where
  pub all_users-vec :
      (fs : List (UserRequestFilter D))
      → all_users holds (user_vec fs) ≡ all (user_meaning holds) fs
  all_users-vec [] = refl
  all_users-vec (f ∷ fs) = rw (all_users-vec fs)

  pub any_user-vec :
      (fs : List (UserRequestFilter D)) → any_user holds (user_vec fs) ≡ any (user_meaning holds) fs
  any_user-vec [] = refl
  any_user-vec (f ∷ fs) = rw (any_user-vec fs)

  pub all_users-list :
      (fs : UserFilters D) → all (user_meaning holds) (user_list fs) ≡ all_users holds fs
  all_users-list UserFilters.nil = refl
  all_users-list (UserFilters.cons f fs) = rw (all_users-list fs)

  pub any_user-list :
      (fs : UserFilters D) → any (user_meaning holds) (user_list fs) ≡ any_user holds fs
  any_user-list UserFilters.nil = refl
  any_user-list (UserFilters.cons f fs) = rw (any_user-list fs)

module _ {D : Type 0} (holds : GroupRequestFilter D → Bool) where
  pub all_groups-vec :
      (fs : List (GroupRequestFilter D))
      → all_groups holds (group_vec fs) ≡ all (group_meaning holds) fs
  all_groups-vec [] = refl
  all_groups-vec (f ∷ fs) = rw (all_groups-vec fs)

  pub any_group-vec :
      (fs : List (GroupRequestFilter D))
      → any_group holds (group_vec fs) ≡ any (group_meaning holds) fs
  any_group-vec [] = refl
  any_group-vec (f ∷ fs) = rw (any_group-vec fs)

  pub all_groups-list :
      (fs : GroupFilters D) → all (group_meaning holds) (group_list fs) ≡ all_groups holds fs
  all_groups-list GroupFilters.nil = refl
  all_groups-list (GroupFilters.cons f fs) = rw (all_groups-list fs)

  pub any_group-list :
      (fs : GroupFilters D) → any (group_meaning holds) (group_list fs) ≡ any_group holds fs
  any_group-list GroupFilters.nil = refl
  any_group-list (GroupFilters.cons f fs) = rw (any_group-list fs)
