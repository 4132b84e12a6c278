-- ===== src/Ldap/World.antt =====
-- What the operations of crates/ldap run on: the state `S` of everything outside the session (the
-- store, the random numbers, Kerberos), the back end's operations on it (crates/domain-handlers and
-- crates/opaque-handler) and those of the OPAQUE and Kerberos crates. An operation can fail or panic.
pub mod Laws
pub mod Sample
use klldap.Base.{ℕ, Bool, Option, none, some, List, Result, ok, err}
use klldap.Text.{Str}
use klldap.Auth.{UserId}
use klldap.Domain.{
  User, UserAndGroups, Group, GroupId, GroupDetails, DomainError, UpdateUserRequest,
  CreateUserRequest, CreateGroupRequest,
}
use klldap.Domain.Deserialize.{Parsers}
use klldap.Handlers.{UserRequestFilter, GroupRequestFilter}
use klldap.Ldap.Error.{LdapResultCode}
use klldap.Ldap.Scope.{LdapSearchResultEntry}

pub data Outcome {ℓ} (E : Type 0) (A : Type ℓ) : Type ℓ where
  done : A → Outcome E A
  failed : E → Outcome E A
  panicked : Outcome E A

abbrev pub Run {ℓ} : Type 0 → Type 0 → Type ℓ → Type ℓ
Run S E A = S → Outcome E A × S

module _ {S E : Type 0} where
  abbrev pub and_then {ℓ κ} :
      {A : Type ℓ} {B : Type κ} → (A → Run S E B) → Outcome E A × S → Outcome E B × S
  and_then next (done a, s) = next a s
  and_then next (failed e, s) = (failed e, s)
  and_then next (panicked, s) = (panicked, s)

  abbrev pub return {ℓ} : {A : Type ℓ} → A → Run S E A
  return a s = (done a, s)

  abbrev pub fail {ℓ} : {A : Type ℓ} → E → Run S E A
  fail e s = (failed e, s)

  -- `Option::expect`.
  abbrev pub expect {ℓ} : {A : Type ℓ} → Option A → Run S E A
  expect (some a) s = (done a, s)
  expect none s = (panicked, s)

  abbrev pub from_result {ℓ} :
      {F : Type 0} {A : Type ℓ} → (F → E) → Result F A × S → Outcome E A × S
  from_result to_error (ok a, s) = (done a, s)
  from_result to_error (err e, s) = (failed (to_error e), s)

  -- `.await.map_err(…)`.
  abbrev pub call {ℓ} : {F : Type 0} {A : Type ℓ} → (F → E) → (S → Result F A × S) → Run S E A
  call to_error op s = from_result to_error (op s)

  -- A call whose result is only logged.
  abbrev pub call_ignored {ℓ} :
      {F : Type 0} {A : Type ℓ} → (S → Result F A × S) → Run S E (Unit {0})
  call_ignored op s = (done tt, (op s).1)

infixl 10 ◌>>=◌
abbrev pub ◌>>=◌ {ℓ κ} :
    {S E : Type 0} {A : Type ℓ} {B : Type κ} → Run S E A → (A → Run S E B) → Run S E B
first >>= next = λ s. and_then next (first s)

-- `O` stands for the messages and states of OPAQUE. The last fields are conversions of the standard
-- library, chrono and base64: of text to values and to bytes and back, and what the formatting of numbers and errors prints. The errors of the anyhow crate are their texts.
pub record World (S D O : Type 0) : Type 0 where
  pub bind : UserId → Str → S → Result DomainError (Unit {0}) × S
  pub get_user_details : UserId → S → Result DomainError (User D) × S
  pub get_user_groups : UserId → S → Result DomainError (List (GroupDetails D)) × S
  pub registration_start : UserId → O → S → Result DomainError (O × O) × S
  pub registration_finish : O → O → S → Result DomainError (Unit {0}) × S
  pub ensure_kerberos_principal_consistency : UserId → Bool → S → Result DomainError (Unit {0}) × S
  pub start_registration : List ℕ → S → Result Str (O × O) × S
  pub finish_registration : O → List ℕ → O → S → Result Str O × S
  pub sync_kerberos_principal : Str → Str → S → Result Str (Unit {0}) × S
  pub list_users :
      Option (UserRequestFilter D) → Bool → S → Result DomainError (List (UserAndGroups D)) × S
  pub create_user : CreateUserRequest D → S → Result DomainError (Unit {0}) × S
  pub update_user : UpdateUserRequest D → S → Result DomainError (Unit {0}) × S
  pub create_group : CreateGroupRequest D → S → Result DomainError GroupId × S
  pub list_groups : Option (GroupRequestFilter D) → S → Result DomainError (List (Group D)) × S
  pub delete_user : UserId → S → Result DomainError (Unit {0}) × S
  pub delete_group : GroupId → S → Result DomainError (Unit {0}) × S
  pub delete_kerberos_principal : Str → S → Result Str (Unit {0}) × S
  pub parsers : Parsers D
  pub as_bytes : Str → List ℕ
  pub from_utf8 : List ℕ → Option Str
  pub debug_utf8_error : List ℕ → Str
  pub display_usize : ℕ → Str
  pub debug_error : DomainError → Str
  pub pretty_debug_error : DomainError → Str
  pub display_error : DomainError → Str

-- The responses of ldap3_proto that are modelled. `referral` is always empty, and so is `matcheddn` but
-- in the result of a comparison, which has it in place of a message.
pub data LdapOp : Type 0 where
  bind_response extended_response modify_response add_response del_response :
      LdapResultCode → Str → LdapOp
  compare_result : LdapResultCode → Str → LdapOp
  search_result_entry : LdapSearchResultEntry → LdapOp
