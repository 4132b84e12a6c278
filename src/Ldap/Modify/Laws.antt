-- ===== src/Ldap/Modify/Laws.antt =====
-- What the changes of one request go through, and what is left of them where one is refused.
use klldap.Base.{
  ℕ, ◌≡◌, refl, subst, Bool, true, false, not, Bool-cases, inl, inr, List, [], ◌∷◌, ◌++◌, ok, err,
  if◌then◌else◌, arith,
}
use klldap.Text.{Str}
use klldap.Auth.{UserId, ValidationResults, can_read, can_write, can_change_password}
use klldap.Domain.{GroupDetails}
use klldap.Domain.Deserialize.{Parsers}
use klldap.Access.{get_readable_handler, get_writeable_handler}
use klldap.Ldap.Error.{LdapResultCode, LdapError, LdapResult}
use klldap.Ldap.Filter.{LdapInfo}
use klldap.Ldap.World.{done, failed, Run, fail, return, World, LdapOp, call, ◌>>=◌}
use klldap.Ldap.World.Laws.{>>=-done, from_result-done}
use klldap.Ldap.Password.{has_admin_group, groups_unread}
use klldap.Ldap.Modify.{
  LdapModify, LdapModifyRequest, is_password, is_replace, handle_modify_change,
  change_user_password, change_profile, apply_change, apply_changes, modify_user, target,
  handle_modify_request, cannot_read, cannot_write,
}

-- A conditional refusal that did not refuse.
module _ {S E A : Type 0} where
  if-done :
      (b : Bool) (e : E) (rest : Run S E A) (s : S) {a : A} {s' : S}
      → (if b then fail e else rest) s ≡ (done a, s')
      → (b ≡ false) × (rest s ≡ (done a, s'))
  if-done true e rest s h = cc h
  if-done false e rest s h = (refl, h)

not_false : (b : Bool) → not b ≡ false → b ≡ true
not_false b h = ground arith

-- `to_lowercase` stands for `char::to_lowercase` of the standard library.
module _ {S D O : Type 0} (w : World S D O) (ldap_info : LdapInfo) (parsers : Parsers D)
    (to_lowercase : ℕ → Str) (credentials : ValidationResults) (uid : UserId) where
  -- The changes that took one state to another: each was made by who may write the user and may change
  -- the user's password, given the groups that the back end had for the user just before.
  pub data Applied : List LdapModify → S → S → Type 0 where
    finished : {s : S} → Applied [] s s
    step :
        {change : LdapModify} {changes : List LdapModify} {s s₁ s₂ s₃ : S}
        (groups : List (GroupDetails D))
        → can_write credentials uid ≡ true
        → w.get_user_groups uid s ≡ (ok groups, s₁)
        → can_change_password credentials uid (has_admin_group w ldap_info to_lowercase groups)
          ≡ true
        → handle_modify_change w ldap_info parsers w w uid credentials
            (has_admin_group w ldap_info to_lowercase groups)
            change
            s₁
          ≡ (done tt, s₂)
        → Applied changes s₂ s₃
        → Applied (change ∷ changes) s s₃

  handle_modify_change-done :
      (user_is_admin : Bool) (change : LdapModify) (s : S) {s' : S}
      → handle_modify_change w ldap_info parsers w w uid credentials user_is_admin change s
        ≡ (done tt, s')
      → can_change_password credentials uid user_is_admin ≡ true
  unfolding handle_modify_change change_user_password change_profile
  handle_modify_change-done user_is_admin change s h =
      elim (Bool-cases (is_password change.modification.atype)) [
        | inl password ↦
            let (supported, rest) =
              if-done (not (is_replace change.operation)) _ _ s (rw password at h) in
            not_false _ (if-done _ _ _ s rest).0
        | inr profile ↦
            not_false _
              (if-done (not (can_change_password credentials uid user_is_admin)) _ _ s
                (rw profile at h)).0
      ]

  abbrev read_groups : Run S LdapError (List (GroupDetails D))
  read_groups = call (groups_unread w ldap_info to_lowercase) (w.get_user_groups uid)

  abbrev change_given : LdapModify → List (GroupDetails D) → Run S LdapError (Unit {0})
  change_given change groups =
      handle_modify_change w ldap_info parsers w w uid credentials
        (has_admin_group w ldap_info to_lowercase groups) change

  apply_change-done :
      (change : LdapModify) (s : S) {s' : S}
      → apply_change w ldap_info parsers to_lowercase credentials uid change s ≡ (done tt, s')
      → (can_write credentials uid ≡ true)
        × (groups : List (GroupDetails D)) × (s₁ : S) × (w.get_user_groups uid s ≡ (ok groups, s₁))
        × (change_given change groups s₁ ≡ (done tt, s'))
  unfolding apply_change get_readable_handler get_writeable_handler
  apply_change-done change s h = elim (Bool-cases (can_read credentials uid)) [
    | inr unread ↦ cc (rw unread at h)
    | inl reads ↦ elim (Bool-cases (can_write credentials uid)) [
      | inr unwritten ↦ cc (rw (reads, unwritten) at h)
      | inl writes ↦
          let (groups, s₁, read, handled) =
            >>=-done read_groups (change_given change) s (rw (reads, writes) at h) in
          (writes, groups, s₁, from_result-done _ _ read, handled)
    ]
  ]

  apply_changes-Applied :
      (changes : List LdapModify) (s : S) {s' : S}
      → apply_changes w ldap_info parsers to_lowercase credentials uid changes s ≡ (done tt, s')
      → Applied changes s s'
  unfolding apply_changes
  apply_changes-Applied [] s {s'} h = subst (λ t. Applied [] s t) {x = s} {y = s'} (cc h) finished
  apply_changes-Applied (change ∷ changes) s {s'} h =
      let (applied, s₂, first, later) =
        >>=-done (apply_change w ldap_info parsers to_lowercase credentials uid change) _ s h in
      let (writes, groups, s₁, read, handled) = apply_change-done change s first in
      step groups writes read
        (handle_modify_change-done (has_admin_group w ldap_info to_lowercase groups) change s₁
          handled)
        handled (apply_changes-Applied changes s₂ later)

  modify_user-done :
      (named : LdapResult UserId) (changes : List LdapModify) (s : S) {ops : List LdapOp} {s' : S}
      → named ≡ ok uid
      → modify_user w ldap_info parsers to_lowercase credentials named changes s ≡ (done ops, s')
      → Applied changes s s'
  modify_user-done (ok u) changes s {ops} {s'} e h =
      let (applied, s₁, all, answered) =
        >>=-done (apply_changes w ldap_info parsers to_lowercase credentials u changes) _ s h in
      subst (λ t. Applied changes s t) {x = s₁} {y = s'} (cc answered)
        (apply_changes-Applied changes s (
          subst
            (λ v.
              apply_changes w ldap_info parsers to_lowercase credentials v changes s
              ≡ (done applied, s₁))
            {x = u} {y = uid} (cc e) all))
  modify_user-done (err m) changes s e h = cc e

  apply_changes-append :
      (earlier later : List LdapModify) (s : S) {s₁ : S}
      → apply_changes w ldap_info parsers to_lowercase credentials uid earlier s ≡ (done tt, s₁)
      → apply_changes w ldap_info parsers to_lowercase credentials uid (earlier ++ later) s
        ≡ apply_changes w ldap_info parsers to_lowercase credentials uid later s₁
  unfolding apply_changes
  apply_changes-append [] later s {s₁} h = let same : s ≡ s₁ = cc h in rw same refl
  apply_changes-append (change ∷ changes) later s h =
      let (applied, s₂, first, rest) =
        >>=-done (apply_change w ldap_info parsers to_lowercase credentials uid change) _ s h in
      rw first (apply_changes-append changes later s₂ rest)

  apply_change-unauthorized :
      (change : LdapModify) (s : S)
      → can_write credentials uid ≡ false
      → (e : LdapError) × (apply_change w ldap_info parsers to_lowercase credentials uid change s
          ≡ (failed e, s))
        × (e.code ≡ LdapResultCode.insufficient_access_rights)
  unfolding apply_change get_readable_handler get_writeable_handler
  apply_change-unauthorized change s unwritten = elim (Bool-cases (can_read credentials uid)) [
    | inr unread ↦ (cannot_read w ldap_info parsers credentials uid, rw unread refl, refl)
    | inl reads ↦
        (cannot_write w ldap_info parsers credentials uid, rw (reads, unwritten) refl, refl)
  ]

-- A modify request that is answered with success names a user, and led from the state before to the
-- state after by its changes in their order, each made by who may write that user and may change that
-- user's password, given the groups that the back end had for the user just before the change.
pub handle_modify_request-done :
    {S D O : Type 0} (w : World S D O) (ldap_info : LdapInfo) (parsers : Parsers D)
    (to_lowercase : ℕ → Str) (credentials : ValidationResults) (request : LdapModifyRequest) (s : S)
    (ops : List LdapOp) (s' : S)
    → handle_modify_request w ldap_info parsers to_lowercase credentials request s ≡ (done ops, s')
    → (uid : UserId) × (target w ldap_info parsers to_lowercase request ≡ ok uid)
      × Applied w ldap_info parsers to_lowercase credentials uid request.changes s s'
unfolding handle_modify_request
handle_modify_request-done w ldap_info parsers to_lowercase credentials request s ops s' h =
    let (uid, names) = named_of (target w ldap_info parsers to_lowercase request) h in
    (uid, names, modify_user-done w ldap_info parsers to_lowercase credentials uid _ _ s names h)
  where
    named_of :
        (r : LdapResult UserId)
        → modify_user w ldap_info parsers to_lowercase credentials r request.changes s
          ≡ (done ops, s')
        → (uid : UserId) × (r ≡ ok uid)
    named_of (ok uid) k = (uid, refl)
    named_of (err e) k = cc k

-- Who may not write a user, and asks for at least one change of that user, is refused for want of rights,
-- and nothing at all happens: password managers too, whatever user it is but themselves.
pub handle_modify_request-unauthorized :
    {S D O : Type 0} (w : World S D O) (ldap_info : LdapInfo) (parsers : Parsers D)
    (to_lowercase : ℕ → Str) (credentials : ValidationResults) (request : LdapModifyRequest)
    (uid : UserId) (change : LdapModify) (changes : List LdapModify) (s : S)
    → target w ldap_info parsers to_lowercase request ≡ ok uid
    → request.changes ≡ change ∷ changes
    → can_write credentials uid ≡ false
    → (e : LdapError) × (handle_modify_request w ldap_info parsers to_lowercase credentials request
          s
        ≡ (failed e, s))
      × (e.code ≡ LdapResultCode.insufficient_access_rights)
unfolding handle_modify_request apply_changes
handle_modify_request-unauthorized w ldap_info parsers to_lowercase credentials request uid change
      changes s names asks unwritten =
    let (e, refused, code) =
      apply_change-unauthorized w ldap_info parsers to_lowercase credentials uid change s
        unwritten in
    (e, rw (names, asks, refused) refl, code)

stopped :
    {S D O : Type 0} (w : World S D O) (ldap_info : LdapInfo) (parsers : Parsers D)
    (to_lowercase : ℕ → Str) (credentials : ValidationResults) (uid : UserId)
    (later : List LdapModify) (change : LdapModify) {e : LdapError} (s₁ : S) {s₂ : S}
    → apply_change w ldap_info parsers to_lowercase credentials uid change s₁ ≡ (failed e, s₂)
    → (apply_changes w ldap_info parsers to_lowercase credentials uid (change ∷ later)
          >>= (λ applied. return (LdapOp.modify_response LdapResultCode.success [] ∷ [])))
        s₁
      ≡ (failed e, s₂)
unfolding apply_changes
stopped w ldap_info parsers to_lowercase credentials uid later change s₁ refused = rw refused refl

-- The changes of a request are made one by one, and the first that is refused ends the request with its
-- error: those before it stay made, and those after it are not tried.
pub handle_modify_request-partial :
    {S D O : Type 0} (w : World S D O) (ldap_info : LdapInfo) (parsers : Parsers D)
    (to_lowercase : ℕ → Str) (credentials : ValidationResults) (request : LdapModifyRequest)
    (uid : UserId) (earlier later : List LdapModify) (change : LdapModify) (e : LdapError)
    (s s₁ s₂ : S)
    → target w ldap_info parsers to_lowercase request ≡ ok uid
    → request.changes ≡ earlier ++ (change ∷ later)
    → apply_changes w ldap_info parsers to_lowercase credentials uid earlier s ≡ (done tt, s₁)
    → apply_change w ldap_info parsers to_lowercase credentials uid change s₁ ≡ (failed e, s₂)
    → handle_modify_request w ldap_info parsers to_lowercase credentials request s ≡ (failed e, s₂)
unfolding handle_modify_request
handle_modify_request-partial w ldap_info parsers to_lowercase credentials request uid earlier later
      change e s s₁ s₂ names asks made refused =
    rw
      (
        names,
        asks,
        apply_changes-append w ldap_info parsers to_lowercase credentials uid earlier
            (change ∷ later) s made,
      )
      (stopped w ldap_info parsers to_lowercase credentials uid later change s₁ refused)
