-- ===== src/Ldap/Password/Laws.antt =====
-- Who binds, and who changes a password.
use klldap.Base.{
  ℕ, ◌≡◌, ◌↔◌, refl, sym, ap, subst, ◌∙◌, Bool, true, false, Bool-cases, inl, inr, Option, none,
  some, List, ok, err,
}
use klldap.Text.{Str, codes, is_empty}
use klldap.Auth.{UserId, ValidationResults, can_read, can_change_password}
use klldap.Access.{then_some, get_readable_handler}
use klldap.Domain.{GroupDetails}
use klldap.Ldap.Error.{LdapResult}
use klldap.Ldap.Filter.{LdapInfo}
use klldap.Ldap.World.{Outcome, done, failed, panicked, expect, call, World, LdapOp}
use klldap.Ldap.World.Laws.{>>=-done, from_result-done, expect-done}
use klldap.Ldap.Password.{
  LdapBindCred, simple, sasl, LdapBindRequest, LdapPasswordModifyRequest, named, bind_refused,
  groups_unread, bind_with, bind_named, do_bind, has_admin_group, change_password,
  try_change_password, context, change_if, modify_password, modify_named, modify_requested,
  do_password_modification,
}

then_some-some : {H : Type 0} (b : Bool) {h k : H} → then_some b h ≡ some k → k ≡ h
then_some-some true e = cc e
then_some-some false e = cc e

module _ {S D O : Type 0} (w : World S D O) (ldap_info : LdapInfo) where
  bind_with-done :
      (u : UserId) (cred : LdapBindCred) (s : S) {uid : UserId} {s' : S}
      → bind_with w ldap_info u cred s ≡ (done uid, s')
      → (u ≡ uid)
        × (password : Str) × (cred ≡ simple password)
        × (w.bind u password s ≡ (ok tt, s'))
  bind_with-done u (simple password) s h =
      let (bound, s₁, called, returned) =
        >>=-done (call (bind_refused w ldap_info) (w.bind u password)) _ s h in
      (cc returned, password, refl, from_result-done _ _ called ∙ cc returned)
  bind_with-done u sasl s h = cc h

  bind_named-done :
      (r : LdapResult UserId) (cred : LdapBindCred) (s : S) {uid : UserId} {s' : S}
      → bind_named w ldap_info r cred s ≡ (done uid, s')
      → (r ≡ ok uid)
        × (password : Str) × (cred ≡ simple password)
        × (w.bind uid password s ≡ (ok tt, s'))
  bind_named-done (ok u) cred s {uid} {s'} h =
      let (same, password, plain, bound) = bind_with-done u cred s h in
      (ap ok same, password, plain, subst (λ v. w.bind v password s ≡ (ok tt, s')) same bound)
  bind_named-done (err e) cred s h = cc h

  context-done :
      (message : Str) (r : Outcome Str (Unit {0}) × S) {s' : S}
      → context w ldap_info message r ≡ (done tt, s')
      → r ≡ (done tt, s')
  context-done message (done u, s₁) h = cc h
  context-done message (failed e, s₁) h = cc h
  context-done message (panicked, s₁) h = cc h

  module _ (to_lowercase : ℕ → Str) (credentials : ValidationResults) where
    abbrev is_allowed : UserId → List (GroupDetails D) → Bool
    is_allowed uid groups =
        can_change_password credentials uid (has_admin_group w ldap_info to_lowercase groups)

    change_if-done :
        (allowed : Bool) (uid : UserId) (password : Str) (s : S) {ops : List LdapOp} {s' : S}
        → change_if w ldap_info to_lowercase allowed credentials uid password s ≡ (done ops, s')
        → (allowed ≡ true)
          × (s₂ : S) × (change_password w ldap_info uid (w.as_bytes password) s ≡ (done tt, s₂))
    change_if-done true uid password s h =
        let (changed, s₁, tried, synced) =
          >>=-done (try_change_password w ldap_info uid (w.as_bytes password)) _ s h in
        (refl, s₁, context-done (codes "Error while changing the password: ") _ tried)
    change_if-done false uid password s h = cc h

    modify_password-done :
        (uid : UserId) (password : Str) (s : S) {ops : List LdapOp} {s' : S}
        → modify_password w ldap_info to_lowercase credentials uid password s ≡ (done ops, s')
        → (groups : List (GroupDetails D)) × (s₁ : S) × (s₂ : S) × (w.get_user_groups uid s
            ≡ (ok groups, s₁))
          × (is_allowed uid groups ≡ true)
          × (change_password w ldap_info uid (w.as_bytes password) s₁ ≡ (done tt, s₂))
    unfolding modify_password get_readable_handler
    modify_password-done uid password s {ops} {s'} h =
        let (readable, s₀, lent, rest) =
          >>=-done (expect (get_readable_handler w credentials uid)) _ s h in
        let (groups, s₁, called, rest') =
          >>=-done (call (groups_unread w ldap_info to_lowercase) (readable.get_user_groups uid)) _
            s₀ rest in
        let (allowed, s₂, changed) = change_if-done _ uid password s₁ rest' in
        let (given, same) = expect-done (get_readable_handler w credentials uid) s lent in
        let read : w.get_user_groups uid s ≡ (ok groups, s₁) =
          subst (λ h. h.get_user_groups uid s ≡ (ok groups, s₁))
            (then_some-some (can_read credentials uid) given)
            (subst (λ t. readable.get_user_groups uid t ≡ (ok groups, s₁)) (sym same)
              (from_result-done _ _ called)) in
        (groups, s₁, s₂, read, allowed, changed)

    modify_named-done :
        (r : LdapResult UserId) (password : Str) (s : S) {ops : List LdapOp} {s' : S}
        → modify_named w ldap_info to_lowercase credentials r password s ≡ (done ops, s')
        → (uid : UserId) × (r ≡ ok uid)
          × (modify_password w ldap_info to_lowercase credentials uid password s ≡ (done ops, s'))
    modify_named-done (ok uid) password s h = (uid, refl, h)
    modify_named-done (err e) password s h = cc h

    modify_requested-done :
        (user_identity new_password : Option Str) (s : S) {ops : List LdapOp} {s' : S}
        → modify_requested w ldap_info to_lowercase credentials user_identity new_password s
          ≡ (done ops, s')
        → (user password : Str) × (user_identity ≡ some user)
          × (new_password ≡ some password)
          × (modify_named w ldap_info to_lowercase credentials (named w ldap_info user) password s
              ≡ (done ops, s'))
    modify_requested-done (some user) (some password) s h = (user, password, refl, refl, h)
    modify_requested-done (some user) none s h = cc h
    modify_requested-done none new_password s h = cc h

-- A bind succeeds for a user exactly if the name is not empty and names that user, the credential is a
-- plain password, and the back end accepts it for the user.
pub do_bind_iff :
    {S D O : Type 0} (w : World S D O) (ldap_info : LdapInfo) (request : LdapBindRequest) (s : S)
    (uid : UserId) (s' : S)
    → (do_bind w ldap_info request s ≡ (done uid, s')) ↔ (
        (is_empty request.dn ≡ false)
        × (named w ldap_info request.dn ≡ ok uid)
        × (password : Str) × (request.cred ≡ simple password)
        × (w.bind uid password s ≡ (ok tt, s')))
unfolding do_bind
do_bind_iff w ldap_info request s uid s' = elim (Bool-cases (is_empty request.dn)) [
  | inl blank ↦ (λ h. cc (rw blank at h), λ h. cc (blank, h.0))
  | inr some_text ↦ (
    λ h.
        let (names, password, plain, bound) =
          bind_named-done w ldap_info _ _ s (rw some_text at h) in
        (some_text, names, password, plain, bound),
    λ (blank, names, password, plain, bound). rw (some_text, names, plain, bound) refl,
  )
]

-- A change of a password that is answered with success went through the back end: the request names a
-- user and a password, and the bound user may change that user's password, given the groups that the
-- back end has for the user.
pub do_password_modification-done :
    {S D O : Type 0} (w : World S D O) (ldap_info : LdapInfo) (to_lowercase : ℕ → Str)
    (credentials : ValidationResults) (request : LdapPasswordModifyRequest) (s : S)
    (ops : List LdapOp) (s' : S)
    → do_password_modification w ldap_info to_lowercase credentials request s ≡ (done ops, s')
    → (user : Str) × (password : Str) × (uid : UserId) × (groups : List (GroupDetails D)) × (s₁ : S)
      × (s₂ : S) × (request.user_identity ≡ some user)
      × (request.new_password ≡ some password)
      × (named w ldap_info user ≡ ok uid)
      × (w.get_user_groups uid s ≡ (ok groups, s₁))
      × (can_change_password credentials uid (has_admin_group w ldap_info to_lowercase groups)
          ≡ true)
      × (change_password w ldap_info uid (w.as_bytes password) s₁ ≡ (done tt, s₂))
unfolding do_password_modification
do_password_modification-done w ldap_info to_lowercase credentials request s ops s' h =
    let (user, password, has_user, has_password, rest) =
      modify_requested-done w ldap_info to_lowercase credentials _ _ s h in
    let (uid, names, rest') =
      modify_named-done w ldap_info to_lowercase credentials _ password s rest in
    let (groups, s₁, s₂, read, allowed, changed) =
      modify_password-done w ldap_info to_lowercase credentials uid password s rest' in
    (user, password, uid, groups, s₁, s₂, has_user, has_password, names, read, allowed, changed)
