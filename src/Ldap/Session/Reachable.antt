-- ===== src/Ldap/Session/Reachable.antt =====
-- What can be reached by messages of the client, between which others may change the outside.
use klldap.Base.{
  ℕ, ◌≡◌, ◌≢◌, refl, sym, ap, subst, ◌∙◌, ◌⊎◌, inl, inr, Bool, true, false, Option, none, some,
  List, [], ◌∷◌, Result, ok, err,
}
use klldap.Text.{Str}
use klldap.Auth.{UserId, ValidationResults, is_admin}
use klldap.Domain.{GroupDetails, DomainError}
use klldap.Access.{get_admin_handler, get_permissions_from_groups, get_permissions_for_user}
use klldap.Ldap.Error.{LdapResultCode}
use klldap.Ldap.Filter.{LdapInfo}
use klldap.Ldap.World.{done, World, LdapOp}
use klldap.Ldap.Password.{LdapBindRequest, do_bind}
use klldap.Ldap.Session.{
  LdapHandler, handler, Message, bind_request, unbind_request, password_modify_request,
  password_modify_error, modify_request, add_request, del_request, extended_request,
  unsupported_request, unauthorized_write, admin_handler, ok_or_none, permissions,
  handle_ldap_message,
}
use klldap.Ldap.Session.Laws.{IsBound, handle_ldap_message-done}

module _ {S D O : Type 0} (w : World S D O) (ldap_info : LdapInfo) (to_lowercase : ℕ → Str) where
  pub data Reachable : LdapHandler → S → Type 0 where
    start : (s : S) → Reachable (handler none) s
    outside : {h : LdapHandler} {s : S} (s' : S) → Reachable h s → Reachable h s'
    step :
        {h h' : LdapHandler} {s s' : S} {answer : Option (List LdapOp)} (m : Message)
        → handle_ldap_message w ldap_info to_lowercase h m s ≡ (done (h', answer), s')
        → Reachable h s
        → Reachable h' s'

  -- From the one session and outside to the other, by messages and changes from outside throughout which
  -- the session was bound to the user.
  pub data StaysBound (v : ValidationResults) (h₁ : LdapHandler) (s₁ : S)
      : LdapHandler → S → Type 0 where
    here : h₁.user_info ≡ some v → StaysBound v h₁ s₁ h₁ s₁
    outside : {h : LdapHandler} {s : S} (s' : S) → StaysBound v h₁ s₁ h s → StaysBound v h₁ s₁ h s'
    step :
        {h h' : LdapHandler} {s s' : S} {answer : Option (List LdapOp)} (m : Message)
        → handle_ldap_message w ldap_info to_lowercase h m s ≡ (done (h', answer), s')
        → h'.user_info ≡ some v
        → StaysBound v h₁ s₁ h s
        → StaysBound v h₁ s₁ h' s'

  -- The bind in the past of a session that bound it to its user: the request was sent when the session
  -- had come to `h₀` and `s₀`, the back end accepted the user's password in it, it left the session
  -- bound, and the session stayed bound to the user ever since.
  pub record BoundBefore (v : ValidationResults) (h : LdapHandler) (s : S) : Type 0 where
    pub request : LdapBindRequest
    pub h₀ : LdapHandler
    pub s₀ : S
    pub before : Reachable h₀ s₀
    pub h₁ : LdapHandler
    pub answer : Option (List LdapOp)
    pub s₁ : S
    pub sent :
        handle_ldap_message w ldap_info to_lowercase h₀ (bind_request request) s₀
        ≡ (done (h₁, answer), s₁)
    pub s₂ : S
    pub accepted : do_bind w ldap_info request s₀ ≡ (done v.user, s₂)
    pub since : StaysBound v h₁ s₁ h s

  permissions-of :
      (uid : UserId) (r : Result DomainError (List (GroupDetails D))) {v : ValidationResults}
      → ok_or_none (get_permissions_for_user to_lowercase (λ u. r) uid) ≡ some v
      → v.user ≡ uid
  unfolding get_permissions_for_user get_permissions_from_groups
  permissions-of uid (ok groups) e = cc e
  permissions-of uid (err x) e = cc e

  permissions-user :
      (uid : UserId) (s : S) {v : ValidationResults}
      → permissions w ldap_info to_lowercase uid s ≡ some v
      → v.user ≡ uid
  unfolding get_permissions_for_user
  permissions-user uid s e = permissions-of uid (w.get_user_groups uid s).0 e

  IsBound-accepted :
      (request : LdapBindRequest) (s : S) {h : LdapHandler} {v : ValidationResults}
      → IsBound w ldap_info to_lowercase request s h
      → h.user_info ≡ some v
      → (s₂ : S) × (do_bind w ldap_info request s ≡ (done v.user, s₂))
  IsBound-accepted request s {h} {v} bound is =
      let own : v.user ≡ bound.uid =
        permissions-user bound.uid bound.s₂ (sym (ap (λ k. k.user_info) bound.permitted) ∙ is) in
      (
        bound.s₁,
        subst (λ u. do_bind w ldap_info request s ≡ (done u, bound.s₁)) (sym own) bound.accepted,
      )

  -- The same bind, for a later session.
  later :
      {v : ValidationResults} {h h' : LdapHandler} {s s' : S} (b : BoundBefore v h s)
      → StaysBound v b.h₁ b.s₁ h' s'
      → BoundBefore v h' s'
  later b since = record {
    request = b.request;
    h₀ = b.h₀;
    s₀ = b.s₀;
    before = b.before;
    h₁ = b.h₁;
    answer = b.answer;
    s₁ = b.s₁;
    sent = b.sent;
    s₂ = b.s₂;
    accepted = b.accepted;
    since = since;
  }

  Reachable-BoundBefore :
      {h : LdapHandler} {s : S} {v : ValidationResults}
      → Reachable h s
      → h.user_info ≡ some v
      → BoundBefore v h s
  Reachable-BoundBefore (start s) is = cc is
  Reachable-BoundBefore (outside s' earlier) is =
      let b = Reachable-BoundBefore earlier is in later b (outside s' b.since)
  Reachable-BoundBefore {v = v} (step {h} {h'} {s} {s'} {answer} m e earlier) is =
      elim (handle_ldap_message-done w ldap_info to_lowercase h m s e) [
        | inl kept ↦
            let b = Reachable-BoundBefore earlier (sym (ap (λ k. k.user_info) kept) ∙ is) in
            later b (step m e is b.since)
        | inr (inl dropped) ↦ cc (ap (λ k. k.user_info) dropped, is)
        | inr (inr (request, named, bound)) ↦
            let (s₂, accepted) = IsBound-accepted request s bound is in
            record {
              request = request;
              h₀ = h;
              s₀ = s;
              before = earlier;
              h₁ = h';
              answer = answer;
              s₁ = s';
              sent =
                  subst
                    (λ x.
                      handle_ldap_message w ldap_info to_lowercase h x s ≡ (done (h', answer), s'))
                    named e;
              s₂ = s₂;
              accepted = accepted;
              since = here is;
            }
      ]

-- A session that has come about by any interleaving of changes from outside and of the client's messages
-- (binding, unbinding, changing a password, modifying, adding, deleting, and requests that are not
-- supported; not searching, comparing and WHOAMI, which Message leaves out) and that is bound to a user
-- was bound by a bind request that it handled: the request was sent in a session reached in the same way,
-- the back end accepted this user's password in it, and from then on the session stayed bound to the user.
pub Reachable-user_info :
    {S D O : Type 0} (w : World S D O) (ldap_info : LdapInfo) (to_lowercase : ℕ → Str)
    (h : LdapHandler) (s : S) (v : ValidationResults)
    → Reachable w ldap_info to_lowercase h s
    → h.user_info ≡ some v
    → BoundBefore w ldap_info to_lowercase v h s
Reachable-user_info w ldap_info to_lowercase h s v reachable is =
    Reachable-BoundBefore w ldap_info to_lowercase reachable is

-- The one response refuses the request.
abbrev pub is_refusal : LdapResultCode → Bool
is_refusal LdapResultCode.insufficient_access_rights = true
is_refusal LdapResultCode.protocol_error = true
is_refusal LdapResultCode.unwilling_to_perform = true
is_refusal _ = false

abbrev pub is_refused : Option (List LdapOp) → Bool
is_refused (some (LdapOp.extended_response code message ∷ [])) = is_refusal code
is_refused (some (LdapOp.modify_response code message ∷ [])) = is_refusal code
is_refused (some (LdapOp.add_response code message ∷ [])) = is_refusal code
is_refused (some (LdapOp.del_response code message ∷ [])) = is_refusal code
is_refused other = false

-- While no user is bound, a request to change a password, to modify, to add or to delete, a malformed
-- one and one that is not supported change nothing outside, leave the session unbound, and are answered
-- with one response that refuses them; unbinding changes nothing either, and has no answer. (Message
-- leaves out searching, comparing and WHOAMI.)
pub handle_ldap_message-unbound :
    {S D O : Type 0} (w : World S D O) (ldap_info : LdapInfo) (to_lowercase : ℕ → Str) (m : Message)
    (s : S)
    → ((request : LdapBindRequest) → m ≢ bind_request request)
    → (answer : Option (List LdapOp)) × (handle_ldap_message w ldap_info to_lowercase
          (handler none)
          m
          s
        ≡ (done (handler none, answer), s))
      × (((m ≡ unbind_request) × (answer ≡ none)) ⊎ (is_refused answer ≡ true))
unfolding handle_ldap_message
handle_ldap_message-unbound w ldap_info to_lowercase (bind_request request) s other =
    absurd (other request refl)
handle_ldap_message-unbound w ldap_info to_lowercase unbind_request s other =
    (_, refl, inl (refl, refl))
handle_ldap_message-unbound w ldap_info to_lowercase (password_modify_request request) s other =
    (_, refl, inr refl)
handle_ldap_message-unbound w ldap_info to_lowercase (del_request request) s other =
    (_, refl, inr refl)
handle_ldap_message-unbound w ldap_info to_lowercase (modify_request request) s other =
    (_, refl, inr refl)
handle_ldap_message-unbound w ldap_info to_lowercase (add_request request) s other =
    (_, refl, inr refl)
handle_ldap_message-unbound w ldap_info to_lowercase (password_modify_error e) s other =
    (_, refl, inr refl)
handle_ldap_message-unbound w ldap_info to_lowercase (extended_request name) s other =
    (_, refl, inr refl)
handle_ldap_message-unbound w ldap_info to_lowercase (unsupported_request op) s other =
    (_, refl, inr refl)

admin_handler-none :
    {S D O : Type 0} (w : World S D O) (ldap_info : LdapInfo) (to_lowercase : ℕ → Str)
    (user_info : Option ValidationResults)
    → ((v : ValidationResults) → user_info ≡ some v → is_admin v ≡ false)
    → admin_handler w ldap_info to_lowercase user_info ≡ none
unfolding get_admin_handler
admin_handler-none w ldap_info to_lowercase none no_admin = refl
admin_handler-none w ldap_info to_lowercase (some v) no_admin = rw (no_admin v refl) refl

-- In a session that is not bound to an administrator a deletion changes nothing, outside or in the
-- session: whatever the name, the only response is the refusal for want of rights.
pub handle_ldap_message-del_request :
    {S D O : Type 0} (w : World S D O) (ldap_info : LdapInfo) (to_lowercase : ℕ → Str)
    (h : LdapHandler) (request : Str) (s : S)
    → ((v : ValidationResults) → h.user_info ≡ some v → is_admin v ≡ false)
    → handle_ldap_message w ldap_info to_lowercase h (del_request request) s ≡ (
      done (h, some (LdapOp.del_response unauthorized_write.code unauthorized_write.message ∷ [])),
      s,
    )
unfolding handle_ldap_message
handle_ldap_message-del_request w ldap_info to_lowercase h request s no_admin =
    rw (admin_handler-none w ldap_info to_lowercase h.user_info no_admin) refl
