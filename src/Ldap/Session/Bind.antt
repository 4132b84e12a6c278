-- ===== src/Ldap/Session/Bind.antt =====
-- The answer to a bind.
use klldap.Base.{ℕ, ◌≡◌, ◌≢◌, refl, Bool-cases, inl, inr, [], ◌∷◌, Result, ok, err}
use klldap.Text.{Str, is_empty, eq_ignore_ascii_case}
use klldap.Auth.{UserId}
use klldap.Domain.{User, DomainError}
use klldap.Ldap.Error.{LdapResultCode, LdapError, LdapResult}
use klldap.Ldap.Filter.{LdapInfo}
use klldap.Ldap.World.{
  Outcome, done, failed, panicked, and_then, from_result, return, World, LdapOp,
}
use klldap.Ldap.Password.{
  LdapBindCred, simple, sasl, LdapBindRequest, named, bind_refused, bind_with, bind_named, do_bind,
}
use klldap.Ldap.Session.{
  provided_ou, LdapHandler, Step, bind_details, bind_answered, do_bind_request,
}
use klldap.Ldap.Attributes.{get_user_ou}
use klldap.Ldap.Session.Laws.{IsBound}

module _ {S D O : Type 0} (w : World S D O) (ldap_info : LdapInfo) where
  -- A user, or an error whose code is not that of success.
  abbrev IsClear : Outcome LdapError UserId × S → Type 0
  IsClear (done uid, s) = Unit
  IsClear (failed e, s) = e.code ≢ LdapResultCode.success
  IsClear (panicked, s) = ⊥

  accepted-IsClear :
      (u : UserId) (r : Result DomainError (Unit {0}) × S)
      → IsClear (and_then (λ bound. return u) (from_result (bind_refused w ldap_info) r))
  accepted-IsClear u (ok b, s) = tt
  accepted-IsClear u (err e, s) = λ same. cc same

  bind_with-IsClear :
      (u : UserId) (cred : LdapBindCred) (s : S) → IsClear (bind_with w ldap_info u cred s)
  bind_with-IsClear u (simple password) s = accepted-IsClear u (w.bind u password s)
  bind_with-IsClear u sasl s = λ same. cc same

  bind_named-IsClear :
      (r : LdapResult UserId) (cred : LdapBindCred) (s : S)
      → IsClear (bind_named w ldap_info r cred s)
  bind_named-IsClear (ok u) cred s = bind_with-IsClear u cred s
  bind_named-IsClear (err e) cred s = λ same. cc same

  do_bind-IsClear : (request : LdapBindRequest) (s : S) → IsClear (do_bind w ldap_info request s)
  unfolding do_bind
  do_bind-IsClear request s = elim (Bool-cases (is_empty request.dn)) [
    | inl blank ↦ rw blank (λ same. cc same)
    | inr some_text ↦
        rw some_text (bind_named-IsClear (named w ldap_info request.dn) request.cred s)
  ]

  module _ (to_lowercase : ℕ → Str) (h : LdapHandler) (request : LdapBindRequest) (s : S) where
    -- One response; with the code of success the bind went through, and otherwise the session is kept.
    abbrev IsAnswered : Step w ldap_info to_lowercase → Type 0
    IsAnswered step =
        (h' : LdapHandler) × (code : LdapResultCode) × (message : Str) × (s' : S) × (step
          ≡ (done (h', LdapOp.bind_response code message ∷ []), s'))
        × (code ≡ LdapResultCode.success → IsBound w ldap_info to_lowercase request s h')
        × (code ≢ LdapResultCode.success → h' ≡ h)

    bind_details-IsAnswered :
        (uid : UserId) (s₁ : S)
        → do_bind w ldap_info request s ≡ (done uid, s₁)
        → (r : Result DomainError (User D) × S) → w.get_user_details uid s₁ ≡ r
        → IsAnswered (bind_details w ldap_info to_lowercase h request.dn uid r)
    bind_details-IsAnswered uid s₁ bound (ok user, s₂) details =
        elim (Bool-cases (eq_ignore_ascii_case (provided_ou request.dn) (get_user_ou user))) [
          | inl same ↦ rw same (
            _,
            LdapResultCode.success,
            [],
            _,
            refl,
            λ e. record {
              uid = uid;
              user = user;
              s₁ = s₁;
              s₂ = s₂;
              accepted = bound;
              found = details;
              same_ou = same;
              permitted = refl;
            },
            λ e. absurd (e refl),
          )
          | inr other ↦
              rw other (h, LdapResultCode.invalid_credentials, [], s₂, refl, λ e. cc e, λ e. refl)
        ]
    bind_details-IsAnswered uid s₁ bound (err x, s₂) details =
        (h, LdapResultCode.invalid_credentials, [], s₂, refl, λ e. cc e, λ e. refl)

    bind_answered-IsAnswered :
        (r : Outcome LdapError UserId × S)
        → do_bind w ldap_info request s ≡ r
        → IsClear r
        → IsAnswered (bind_answered w ldap_info to_lowercase h request.dn r)
    bind_answered-IsAnswered (done uid, s₁) bound clear =
        bind_details-IsAnswered uid s₁ bound (w.get_user_details uid s₁) refl
    bind_answered-IsAnswered (failed e, s₁) bound clear =
        (h, e.code, e.message, s₁, refl, λ same. absurd (clear same), λ other. refl)
    bind_answered-IsAnswered (panicked, s₁) bound clear = absurd clear

-- A bind never panics and has exactly one response. If its code is success, the back end accepted the
-- password, the unit in the name is the user's, and the session holds the permissions that the back end
-- gives; otherwise the session keeps the user that it was bound to before.
pub do_bind_request-answer :
    {S D O : Type 0} (w : World S D O) (ldap_info : LdapInfo) (to_lowercase : ℕ → Str)
    (h : LdapHandler) (request : LdapBindRequest) (s : S)
    → (h' : LdapHandler) × (code : LdapResultCode) × (message : Str) × (s' : S) × (do_bind_request w
          ldap_info to_lowercase h request s
        ≡ (done (h', LdapOp.bind_response code message ∷ []), s'))
      × (code ≡ LdapResultCode.success → IsBound w ldap_info to_lowercase request s h')
      × (code ≢ LdapResultCode.success → h' ≡ h)
unfolding do_bind_request
do_bind_request-answer w ldap_info to_lowercase h request s =
    bind_answered-IsAnswered w ldap_info to_lowercase h request s _ refl
      (do_bind-IsClear w ldap_info request s)
