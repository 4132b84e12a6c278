-- ===== src/Sql/Posix.antt =====
-- crates/sql-backend-handler/src/sql_user_backend_handler.rs and sql_group_backend_handler.rs: the
-- POSIX numbers, their checks, and what is assigned to a new user or group. `taken` is what the database
-- answers in the transaction. The loop runs on fuel; two more than the distance is
-- enough, unless the range ends at the largest `i64`, where the candidate wraps.
pub mod Order
pub mod Laws
pub mod Attributes
pub mod Checks
pub mod Assigned
pub mod Tests
use klldap.Base.{
  ℕ, zero, suc, ◌+◌, ◌-◌, Bool, true, false, not, ◌&&◌, ◌||◌, Option, none, some, List, [], ◌∷◌,
  ◌++◌, any, leb, ltb, ◌==◌, if◌then◌else◌, Result, ok, err, ◌>>=◌,
}
use klldap.Text.{Str, codes, str_eq}
use klldap.Auth.{UserId}
use klldap.Domain.{
  ℤ, pos, negsuc, AttributeValue, Cardinality, singleton, unbounded, Attribute, attribute_name,
  DomainError,
}
use klldap.Sql.Posix.Order.{leq, wrapping_succ, distance}

pub record PosixSettings : Type 0 where
  pub user_uidnumber_assign : Bool
  pub user_uidnumber_start : ℤ
  pub user_uidnumber_max : ℤ
  pub user_gidnumber_assign : Bool
  pub user_gidnumber_start : ℤ
  pub user_loginshell_assign : Bool
  pub user_loginshell_default : Str
  pub user_homedirectory_assign : Bool
  pub user_homedirectory_prefix : Str
  pub group_gidnumber_assign : Bool
  pub group_gidnumber_start : ℤ
  pub group_gidnumber_max : ℤ

-- How the loop can end; `exhausted` is the end of the fuel, for a loop that does not end.
pub data Search : Type 0 where
  found : ℤ → Search
  failed : DomainError → Search
  exhausted : Search

-- `i64_to_string` prints a number.
module _ (i64_to_string : ℤ → Str) where
  abbrev range_text : ℤ → ℤ → Str → Str → Str
  range_text start max between end = i64_to_string start ++ (between ++ (i64_to_string max ++ end))

  abbrev none_available : Str → ℤ → ℤ → DomainError
  none_available kind start max = DomainError.internal_error (
      codes "No available "
      ++ (kind ++ (codes " in range " ++ range_text start max (codes "-") (codes " (all taken)"))))

  abbrev empty_range : Str → ℤ → ℤ → DomainError
  empty_range kind start max =
      DomainError.internal_error
        (kind ++ (codes " start (" ++ range_text start max (codes ") > max (") (codes ")")))

  module _ (taken : ℤ → Result DomainError Bool) where
    abbrev pub answered : Result DomainError Bool → ℤ → Search → Search
    answered (err e) candidate next = failed e
    answered (ok false) candidate next = found candidate
    answered (ok true) candidate next = next

    -- The loop from a candidate.
    unfoldable pub search : Str → ℤ → ℤ → ℕ → ℤ → Search
    search kind start max zero candidate = exhausted
    search kind start max (suc fuel) candidate =
        let next = search kind start max fuel (wrapping_succ candidate) in
        if leq candidate max
        then answered (taken candidate) candidate next
        else failed (none_available kind start max)

    -- `next_available_uid_number` and `next_available_gid_number`: `kind` is the name in the messages.
    unfoldable pub next_available_number : Str → ℤ → ℤ → Search
    next_available_number kind start max =
        if not (leq start max)
        then failed (empty_range kind start max)
        else search kind start max (suc (suc (distance start max))) start
