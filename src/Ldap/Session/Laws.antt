-- ===== src/Ldap/Session/Laws.antt =====
-- A session is bound only to a user who proved the password, and does nothing else before.
use klldap.Base.{
  ℕ, ◌≡◌, refl, ◌⊎◌, inl, inr, Bool, true, false, Option, none, List, Result, ok, err,
}
use klldap.Text.{Str, eq_ignore_ascii_case}
use klldap.Auth.{UserId}
use klldap.Domain.{User, DomainError}
use klldap.Ldap.Error.{LdapResultCode, LdapError}
use klldap.Ldap.Filter.{LdapInfo}
use klldap.Ldap.World.{Outcome, done, failed, panicked, World, LdapOp}
use klldap.Ldap.Password.{LdapBindRequest, do_bind}
use klldap.Ldap.Session.{
  provided_ou, LdapHandler, handler, Message, bind_request, unbind_request, password_modify_request,
  password_modify_error, modify_request, add_request, del_request, extended_request,
  unsupported_request, Step, permissions, bind_in_ou, bind_details, bind_answered, do_bind_request,
  respond_or, answered, handle_ldap_message,
}
use klldap.Ldap.Attributes.{get_user_ou}

module _ {S D O : Type 0} (w : World S D O) (ldap_info : LdapInfo) (to_lowercase : ℕ → Str) where
  -- A bind that went through: the password was right, and the unit of the name is the user's.
  pub record IsBound (request : LdapBindRequest) (s : S) (h : LdapHandler) : Type 0 where
    pub uid : UserId
    pub user : User D
    pub s₁ : S
    pub s₂ : S
    pub accepted : do_bind w ldap_info request s ≡ (done uid, s₁)
    pub found : w.get_user_details uid s₁ ≡ (ok user, s₂)
    pub same_ou : eq_ignore_ascii_case (provided_ou request.dn) (get_user_ou user) ≡ true
    pub permitted : h ≡ handler (permissions w ldap_info to_lowercase uid s₂)

  bind_in_ou-done :
      (h : LdapHandler) (uid : UserId) (same : Bool) (s : S) {h' : LdapHandler} {ops : List LdapOp}
      {s' : S}
      → bind_in_ou w ldap_info to_lowercase h uid same s ≡ (done (h', ops), s')
      → (h' ≡ h) ⊎ ((same ≡ true) × (h' ≡ handler (permissions w ldap_info to_lowercase uid s)))
  bind_in_ou-done h uid true s e = inr (refl, cc e)
  bind_in_ou-done h uid false s e = inl (cc e)

  do_bind_request-done :
      (h : LdapHandler) (request : LdapBindRequest) (s : S) {h' : LdapHandler} {ops : List LdapOp}
      {s' : S}
      → do_bind_request w ldap_info to_lowercase h request s ≡ (done (h', ops), s')
      → (h' ≡ h) ⊎ IsBound request s h'
  unfolding do_bind_request
  do_bind_request-done h request s {h'} {ops} {s'} e =
      by_outcome (do_bind w ldap_info request s) refl e
    where
      by_details :
          (uid : UserId) (s₁ : S)
          → do_bind w ldap_info request s ≡ (done uid, s₁)
          → (r : Result DomainError (User D) × S) → w.get_user_details uid s₁ ≡ r
          → bind_details w ldap_info to_lowercase h request.dn uid r ≡ (done (h', ops), s')
          → (h' ≡ h) ⊎ IsBound request s h'
      by_details uid s₁ bound (ok user, s₂) details e = elim (bind_in_ou-done h uid _ s₂ e) [
        | inl kept ↦ inl kept
        | inr (same, permitted) ↦ inr (record {
          uid = uid;
          user = user;
          s₁ = s₁;
          s₂ = s₂;
          accepted = bound;
          found = details;
          same_ou = same;
          permitted = permitted;
        })
      ]
      by_details uid s₁ bound (err x, s₂) details e = inl (cc e)

      by_outcome :
          (r : Outcome LdapError UserId × S)
          → do_bind w ldap_info request s ≡ r
          → bind_answered w ldap_info to_lowercase h request.dn r ≡ (done (h', ops), s')
          → (h' ≡ h) ⊎ IsBound request s h'
      by_outcome (done uid, s₁) bound e = by_details uid s₁ bound (w.get_user_details uid s₁) refl e
      by_outcome (failed x, s₁) bound e = inl (cc e)
      by_outcome (panicked, s₁) bound e = cc e

  respond_or-done :
      (h : LdapHandler) (response : LdapResultCode → Str → LdapOp)
      (r : Outcome LdapError (List LdapOp) × S) {h' : LdapHandler} {ops : List LdapOp} {s' : S}
      → respond_or w ldap_info to_lowercase h response r ≡ (done (h', ops), s')
      → h' ≡ h
  respond_or-done h response (done x, s₁) e = cc e
  respond_or-done h response (failed x, s₁) e = cc e
  respond_or-done h response (panicked, s₁) e = cc e

  answered-done :
      (r : Step w ldap_info to_lowercase) {h' : LdapHandler} {answer : Option (List LdapOp)}
      {s' : S}
      → answered w ldap_info to_lowercase r ≡ (done (h', answer), s')
      → (ops : List LdapOp) × (r ≡ (done (h', ops), s'))
  answered-done (done (h, ops), s₁) e = (ops, cc e)
  answered-done (failed x, s₁) e = cc e
  answered-done (panicked, s₁) e = cc e

  -- After a message the session is as before, or unbound, or the message was a bind that went through.
  pub handle_ldap_message-done :
      (h : LdapHandler) (m : Message) (s : S) {h' : LdapHandler} {answer : Option (List LdapOp)}
      {s' : S}
      → handle_ldap_message w ldap_info to_lowercase h m s ≡ (done (h', answer), s')
      → (h' ≡ h)
        ⊎ (h' ≡ handler none)
        ⊎ ((request : LdapBindRequest) × (m ≡ bind_request request) × IsBound request s h')
  unfolding handle_ldap_message
  handle_ldap_message-done h (bind_request request) s e =
      elim (do_bind_request-done h request s (answered-done _ e).1) [
        | inl kept ↦ inl kept
        | inr bound ↦ inr (inr (request, refl, bound))
      ]
  handle_ldap_message-done h unbind_request s e = inr (inl (cc e))
  handle_ldap_message-done h (password_modify_request request) s e =
      inl (respond_or-done h LdapOp.extended_response _ (answered-done _ e).1)
  handle_ldap_message-done h (del_request request) s e =
      inl (respond_or-done h LdapOp.del_response _ (answered-done _ e).1)
  handle_ldap_message-done h (modify_request request) s e =
      inl (respond_or-done h LdapOp.modify_response _ (answered-done _ e).1)
  handle_ldap_message-done h (add_request request) s e =
      inl (respond_or-done h LdapOp.add_response _ (answered-done _ e).1)
  handle_ldap_message-done h (password_modify_error x) s e = inl (cc e)
  handle_ldap_message-done h (extended_request name) s e = inl (cc e)
  handle_ldap_message-done h (unsupported_request op) s e = inl (cc e)
