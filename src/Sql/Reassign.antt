-- ===== src/Sql/Reassign.antt =====
-- crates/sql-backend-handler/src/sql_user_backend_handler.rs: the functions that assign all POSIX
-- attributes anew. The digits of a number are their own bytes, `as_bytes` is UTF-8. A table of attributes is the list of its rows: the owner, the name and the stored
-- value. The owners that the query finds, in its order, and the clock are parameters; an error of the
-- database undoes the transaction and is left out.
pub mod Laws
pub mod Tests
use klldap.Base.{
  Bool, true, false, not, ◌&&◌, Option, none, some, List, [], ◌∷◌, ◌++◌, map, retain, if◌then◌else◌,
}
use klldap.Text.{Str, codes, str_eq}
use klldap.Domain.{ℤ}
use klldap.Sql.Posix.{PosixSettings}
use klldap.Sql.Posix.Order.{wrapping_succ}

pub record Tables (K D : Type 0) : Type 0 where
  pub attributes : List (K × Str × Str)
  pub modified_dates : List (K × D)

module _ {K : Type 0} (same : K → K → Bool) where
  -- `INSERT` with `ON CONFLICT (owner, attribute_name) DO UPDATE SET value`.
  unfoldable pub upsert : K → Str → Str → List (K × Str × Str) → List (K × Str × Str)
  upsert owner name value [] = (owner, name, value) ∷ []
  upsert owner name value ((k, n, v) ∷ rows) =
      let later = upsert owner name value rows in
      if same owner k && str_eq name n then (k, n, value) ∷ rows else (k, n, v) ∷ later

-- `(start..).zip(owners)`; the count wraps at the largest `i64`, in a build without overflow checks.
unfoldable pub numbered : {K : Type 0} → (ℤ → Str) → ℤ → List K → List (K × Str)
numbered to_string next [] = []
numbered to_string next (owner ∷ owners) =
    (owner, to_string next) ∷ numbered to_string (wrapping_succ next) owners

abbrev pub delete_attribute : {K D : Type 0} → Str → Tables K D → Tables K D
delete_attribute name t = record {
  attributes = retain (λ row. not (str_eq row.1 name)) t.attributes;
  modified_dates = t.modified_dates;
}

module _ {K D : Type 0} (same : K → K → Bool) where
  abbrev pub touch : K → D → List (K × D) → List (K × D)
  touch owner now [] = []
  touch owner now ((k, d) ∷ rows) =
      let later = touch owner now rows in if same owner k then (k, now) ∷ later else (k, d) ∷ later

  module _ (now : K → D) where
    -- The loop over the owners with their values.
    unfoldable pub assign_each : Str → List (K × Str) → Tables K D → Tables K D
    assign_each name [] t = t
    assign_each name ((owner, value) ∷ assigned) t = assign_each name assigned record {
      attributes = upsert same owner name value t.attributes;
      modified_dates = touch owner (now owner) t.modified_dates;
    }

    module _ (to_string : ℤ → Str) (settings : PosixSettings) where
      unfoldable pub reassign_gid_numbers : List K → Tables K D → Tables K D
      reassign_gid_numbers groups t =
          if settings.group_gidnumber_assign
          then assign_each (codes "gidnumber")
              (numbered to_string settings.group_gidnumber_start groups) t
          else delete_attribute (codes "gidnumber") t

      unfoldable pub reassign_user_uid_numbers : List K → Tables K D → Tables K D
      reassign_user_uid_numbers users t =
          if settings.user_uidnumber_assign
          then assign_each (codes "uidnumber")
              (numbered to_string settings.user_uidnumber_start users) t
          else delete_attribute (codes "uidnumber") t

      -- Every user gets the same number.
      unfoldable pub reassign_user_gid_numbers : List K → Tables K D → Tables K D
      reassign_user_gid_numbers users t =
          if settings.user_gidnumber_assign
          then assign_each (codes "gidnumber")
              (map (λ u. (u, to_string settings.user_gidnumber_start)) users) t
          else delete_attribute (codes "gidnumber") t

      unfoldable pub reassign_user_homedirectories :
          (K → Str) → (Str → Str) → List K → Tables K D → Tables K D
      reassign_user_homedirectories display as_bytes users t =
          if settings.user_homedirectory_assign
          then assign_each (codes "homedirectory")
              (map
                (λ u.
                  (u, as_bytes (settings.user_homedirectory_prefix ++ (codes "/" ++ display u))))
                users)
              t
          else delete_attribute (codes "homedirectory") t

      unfoldable pub reassign_user_loginshells : (Str → Str) → List K → Tables K D → Tables K D
      reassign_user_loginshells as_bytes users t =
          if settings.user_loginshell_assign
          then assign_each (codes "loginshell")
              (map (λ u. (u, as_bytes settings.user_loginshell_default)) users) t
          else delete_attribute (codes "loginshell") t
