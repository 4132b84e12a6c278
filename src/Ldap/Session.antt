-- ===== src/Ldap/Session.antt =====
-- crates/ldap/src/handler.rs: the session of one client, for all messages but those that search, compare
-- and ask who one is.
pub mod Laws
pub mod Reachable
pub mod Bind
pub mod Tests
use klldap.Base.{
  ℕ, Bool, true, false, Option, none, some, List, [], ◌∷◌, ◌++◌, find?, Result, ok, err,
}
use klldap.Text.{Str, codes, to_ascii_lowercase, eq_ignore_ascii_case}
use klldap.Auth.{UserId, ValidationResults}
use klldap.Domain.{AttributeValue, Cardinality, singleton, unbounded, Attribute, User, DomainError}
use klldap.Access.{get_admin_handler, get_permissions_for_user}
use klldap.Ldap.Error.{LdapResultCode, LdapError, LdapResult}
use klldap.Ldap.Ou.{DnParts, default_primary_user_ou, get_internal_ou_from_dn_parts}
use klldap.Ldap.Dn.{parse_distinguished_name}
use klldap.Ldap.Filter.{LdapInfo}
use klldap.Ldap.Attributes.{get_user_ou}
use klldap.Ldap.World.{
  Outcome, done, failed, panicked, Run, return, fail, expect, call, call_ignored, ◌>>=◌, World,
  LdapOp,
}
use klldap.Ldap.Password.{
  LdapBindRequest, LdapPasswordModifyRequest, do_bind, do_password_modification,
}
use klldap.Ldap.Modify.{LdapModifyRequest, handle_modify_request}
use klldap.Ldap.Create.{LdapAddRequest, create_user_or_group}
use klldap.Ldap.Delete.{delete_user_or_group}

abbrev ou_of_parsed : LdapResult DnParts → Str
ou_of_parsed (ok parts) = get_internal_ou_from_dn_parts parts
ou_of_parsed (err e) = []

-- The unit in the name that the client binds with.
abbrev pub provided_ou : Str → Str
provided_ou dn = ou_of_parsed (parse_distinguished_name (to_ascii_lowercase dn))

-- `LdapHandler`; the back end and the configuration are parameters, and the identifier of the session
-- is only logged.
pub record LdapHandler : Type 0 where
  pub user_info : Option ValidationResults

abbrev pub handler : Option ValidationResults → LdapHandler
handler user_info = record { user_info = user_info }

-- `Result::ok`.
abbrev ok_or_none {ℓ} : {E A : Type ℓ} → Result E A → Option A
ok_or_none (ok a) = some a
ok_or_none (err e) = none

-- The messages of ldap3_proto that are modelled. A password change is the extended request with that
-- identifier, and comes parsed, or with the text of the parser's error. The last two stand for the
-- extended requests and the operations that are not supported, and have what is printed of them.
pub data Message : Type 0 where
  bind_request : LdapBindRequest → Message
  unbind_request : Message
  password_modify_request : LdapPasswordModifyRequest → Message
  password_modify_error : Str → Message
  modify_request : LdapModifyRequest → Message
  add_request : LdapAddRequest → Message
  del_request : Str → Message
  extended_request unsupported_request : Str → Message

abbrev pub unbound : LdapError
unbound = record {
  code = LdapResultCode.insufficient_access_rights;
  message = codes "No user currently bound";
}

abbrev pub unauthorized_write : LdapError
unauthorized_write = record {
  code = LdapResultCode.insufficient_access_rights;
  message = codes "Unauthorized write";
}

abbrev respond_bind : LdapResultCode → Str → List LdapOp
respond_bind code message = LdapOp.bind_response code message ∷ []

-- `to_lowercase` stands for `char::to_lowercase` of the standard library.
module _ {S D O : Type 0} (w : World S D O) (ldap_info : LdapInfo) (to_lowercase : ℕ → Str) where
  abbrev pub Step : Type 0
  Step = Outcome LdapError (LdapHandler × List LdapOp) × S

  -- The state after the call is that of `get_user_groups`.
  abbrev pub permissions : UserId → S → Option ValidationResults
  permissions uid s =
      ok_or_none (get_permissions_for_user to_lowercase (λ u. (w.get_user_groups u s).0) uid)

  abbrev bind_in_ou : LdapHandler → UserId → Bool → S → Step
  bind_in_ou h uid true s = (
    done (handler (permissions uid s), respond_bind LdapResultCode.success []),
    (w.get_user_groups uid s).1,
  )
  bind_in_ou h uid false s = (done (h, respond_bind LdapResultCode.invalid_credentials []), s)

  abbrev bind_details : LdapHandler → Str → UserId → Result DomainError (User D) × S → Step
  bind_details h dn uid (ok user, s) =
      bind_in_ou h uid (eq_ignore_ascii_case (provided_ou dn) (get_user_ou user)) s
  bind_details h dn uid (err e, s) =
      (done (h, respond_bind LdapResultCode.invalid_credentials []), s)

  abbrev bind_answered : LdapHandler → Str → Outcome LdapError UserId × S → Step
  bind_answered h dn (done uid, s) = bind_details h dn uid (w.get_user_details uid s)
  bind_answered h dn (failed e, s) = (done (h, respond_bind e.code e.message), s)
  bind_answered h dn (panicked, s) = (panicked, s)

  -- The method `do_bind` of the handler.
  unfoldable pub do_bind_request : LdapHandler → LdapBindRequest → S → Step
  do_bind_request h request s = bind_answered h request.dn (do_bind w ldap_info request s)

  -- `unwrap_or_else` with a response made of the error.
  abbrev respond_or :
      LdapHandler → (LdapResultCode → Str → LdapOp) → Outcome LdapError (List LdapOp) × S → Step
  respond_or h response (done ops, s) = (done (h, ops), s)
  respond_or h response (failed e, s) = (done (h, response e.code e.message ∷ []), s)
  respond_or h response (panicked, s) = (panicked, s)

  abbrev modify_password_as :
      Option ValidationResults → LdapPasswordModifyRequest → Run S LdapError (List LdapOp)
  modify_password_as none request = fail unbound
  modify_password_as (some credentials) request =
      do_password_modification w ldap_info to_lowercase credentials request

  -- The answer to a request to modify has the credentials' response where no user is bound.
  abbrev modify_as : Option ValidationResults → LdapModifyRequest → Run S LdapError (List LdapOp)
  modify_as none request = return (LdapOp.extended_response unbound.code unbound.message ∷ [])
  modify_as (some credentials) request =
      handle_modify_request w ldap_info w.parsers to_lowercase credentials request

  abbrev admin_handler : Option ValidationResults → Option (World S D O)
  admin_handler none = none
  admin_handler (some u) = get_admin_handler w u

  abbrev delete_with : Option (World S D O) → Str → Run S LdapError (List LdapOp)
  delete_with none request = fail unauthorized_write
  delete_with (some backend) request = delete_user_or_group backend to_lowercase ldap_info request

  abbrev add_with : Option (World S D O) → LdapAddRequest → Run S LdapError (List LdapOp)
  add_with none request = fail unauthorized_write
  add_with (some backend) request = create_user_or_group backend ldap_info backend.parsers request

  abbrev refuse : LdapResultCode → Str → List LdapOp
  refuse code message = LdapOp.extended_response code message ∷ []

  -- `Some` of what the other messages answer; unbinding answers `None`.
  abbrev answered : Step → Outcome LdapError (LdapHandler × Option (List LdapOp)) × S
  answered (done (h, ops), s) = (done (h, some ops), s)
  answered (failed e, s) = (failed e, s)
  answered (panicked, s) = (panicked, s)

  unfoldable pub handle_ldap_message :
      LdapHandler → Message → S → Outcome LdapError (LdapHandler × Option (List LdapOp)) × S
  unfolding do_bind_request
  handle_ldap_message h (bind_request request) s = answered (do_bind_request h request s)
  handle_ldap_message h unbind_request s = (done (handler none, none), s)
  handle_ldap_message h (password_modify_request request) s =
      answered (respond_or h LdapOp.extended_response (modify_password_as h.user_info request s))
  handle_ldap_message h (del_request request) s =
      answered
        (respond_or h LdapOp.del_response (delete_with (admin_handler h.user_info) request s))
  handle_ldap_message h (modify_request request) s =
      answered (respond_or h LdapOp.modify_response (modify_as h.user_info request s))
  handle_ldap_message h (add_request request) s =
      answered (respond_or h LdapOp.add_response (add_with (admin_handler h.user_info) request s))
  handle_ldap_message h (password_modify_error e) s = (
    done (
      h,
      some (
          refuse LdapResultCode.protocol_error
            (codes "Error while parsing password modify request: " ++ e)),
    ),
    s,
  )
  handle_ldap_message h (extended_request name) s = (
    done (
      h,
      some (
          refuse LdapResultCode.unwilling_to_perform
            (codes "Unsupported extended operation: " ++ name)),
    ),
    s,
  )
  handle_ldap_message h (unsupported_request op) s = (
    done (
      h,
      some (refuse LdapResultCode.unwilling_to_perform (codes "Unsupported operation: " ++ op)),
    ),
    s,
  )
