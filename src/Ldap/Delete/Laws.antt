-- ===== src/Ldap/Delete/Laws.antt =====
-- What a deletion that is answered with success deleted.
use klldap.Base.{
  ℕ, ◌≡◌, ◌↔◌, refl, sym, subst, ◌∙◌, Bool, true, Bool-cases, inl, inr, Option, none, some, List,
  [], ◌∷◌, find?, ok,
}
use klldap.Text.{Str, codes}
use klldap.Auth.{UserId}
use klldap.Ldap.Error.{LdapResultCode}
use klldap.Domain.{User, Group, GroupName, group_name_eq}
use klldap.Handlers.{GroupRequestFilter}
use klldap.Ldap.World.{done, call, World, LdapOp}
use klldap.Ldap.World.Laws.{>>=-done, from_result-done}
use klldap.Ldap.Delete.{
  operation_failed, group_id_or_fail, delete_user, user_not_found, delete_group,
}

find?-some : {A : Type 0} (p : A → Bool) (xs : List A) {x : A} → find? p xs ≡ some x → p x ≡ true
find?-some p [] e = cc e
find?-some p (y ∷ ys) {x} e = elim (Bool-cases (p y)) [
  | inl hit ↦ subst (λ z. p z ≡ true) (cc (rw hit at e)) hit
  | inr miss ↦ find?-some p ys (rw miss at e)
]

module _ {S D O : Type 0} (w : World S D O) (to_lowercase : ℕ → Str) where
  group_id_or_fail-done :
      (o : Option (Group D)) (s : S) {g : _} {s' : S}
      → group_id_or_fail w to_lowercase o s ≡ (done g, s')
      → (found : Group D) × (o ≡ some found) × (found.id ≡ g) × (s ≡ s')
  group_id_or_fail-done (some x) s e = (x, refl, cc e, cc e)
  group_id_or_fail-done none s e = cc e

-- A group is deleted by its identifier only after the back end listed, for that name, a group whose name
-- is the same without regard to case; the first such group is deleted.
pub delete_group-done :
    {S D O : Type 0} (w : World S D O) (to_lowercase : ℕ → Str) (name : GroupName) (s : S)
    (ops : List LdapOp) (s' : S)
    → delete_group w to_lowercase name s ≡ (done ops, s')
    → (groups : List (Group D)) × (g : Group D) × (s₁ : S) × (w.list_groups
          (some (GroupRequestFilter.display_name name))
          s
        ≡ (ok groups, s₁))
      × (find? (λ k. group_name_eq to_lowercase k.display_name name) groups ≡ some g)
      × (group_name_eq to_lowercase g.display_name name ≡ true)
      × (w.delete_group g.id s₁ ≡ (ok tt, s'))
unfolding delete_group
delete_group-done w to_lowercase name s ops s' h =
    let (groups, s₁, listed, rest) =
      >>=-done
        (call (operation_failed w (codes "Error while finding group: "))
          (w.list_groups (some (GroupRequestFilter.display_name name))))
        _ s h in
    let (id, s₂, found, rest') =
      >>=-done
        (group_id_or_fail w to_lowercase
          (find? (λ k. group_name_eq to_lowercase k.display_name name) groups))
        _ s₁ rest in
    let (g, first, same_id, same_state) = group_id_or_fail-done w to_lowercase _ s₁ found in
    let (deleted, s₃, called, returned) =
      >>=-done
        (call (operation_failed w (codes "Error while deleting group: ")) (w.delete_group id)) _ s₂
        rest' in
    let gone : w.delete_group id s₂ ≡ (ok tt, s') = from_result-done _ _ called ∙ cc returned in
    (
      groups,
      g,
      s₁,
      from_result-done _ _ listed,
      first,
      find?-some _ groups first,
      subst (λ t. w.delete_group g.id t ≡ (ok tt, s')) (sym same_state)
          (subst (λ i. w.delete_group i s₂ ≡ (ok tt, s')) (sym same_id) gone),
    )

-- What a deletion of a user that succeeds has done, up to the state that it leaves.
abbrev pub IsUserDeleted : {S D O : Type 0} → World S D O → UserId → S → List LdapOp → S → Type 0
IsUserDeleted {S} {D} w u s ops s' =
    (user : User D) × (s₁ : S) × (s₂ : S) × (w.get_user_details u s ≡ (ok user, s₁))
    × (w.delete_user u s₁ ≡ (ok tt, s₂))
    × ((w.delete_kerberos_principal u.text s₂).1 ≡ s')
    × (ops ≡ LdapOp.del_response LdapResultCode.success [] ∷ [])

-- A deletion of a user is answered exactly when the back end finds the user and then deletes it. The
-- answer is then success, and the state is the one that the removal of the Kerberos principal leaves,
-- whether or not that removal succeeds.
pub delete_user_iff :
    {S D O : Type 0} (w : World S D O) (u : UserId) (s : S) (ops : List LdapOp) (s' : S)
    → (delete_user w u s ≡ (done ops, s')) ↔ IsUserDeleted w u s ops s'
unfolding delete_user
delete_user_iff w u s ops s' = (
  λ h.
      let (user, s₁, found, rest) =
        >>=-done (call (user_not_found w) (w.get_user_details u)) _ s h in
      let (gone, s₂, deleted, rest') =
        >>=-done (call (operation_failed w (codes "Error while deleting user: ")) (w.delete_user u))
          _ s₁ rest in
      (user, s₁, s₂, from_result-done _ _ found, from_result-done _ _ deleted, cc rest', cc rest'),
  λ (user, s₁, s₂, found, deleted, left, success). rw (found, deleted, left, success) refl,
)
