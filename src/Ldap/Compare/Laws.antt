-- ===== src/Ldap/Compare/Laws.antt =====
-- The answer does not depend on what else the search found.
use klldap.Base.{
  ◌≡◌, refl, ap, ◌∙◌, Bool, true, false, none, some, List, [], ◌∷◌, ◌++◌, any, find?, arith,
  if◌then◌else◌,
}
use klldap.Text.{Str}
use klldap.Ldap.Error.{LdapResultCode}
use klldap.Ldap.Scope.{LdapSearchResultEntry}
use klldap.Ldap.World.{LdapOp, search_result_entry}
use klldap.Ldap.Compare.{LdapCompareRequest, entries, has_dn, has_value, compare}

entries-append : (xs ys : List LdapOp) → entries (xs ++ ys) ≡ entries xs ++ entries ys
entries-append [] ys = refl
entries-append (search_result_entry e ∷ xs) ys = ap (λ l. e ∷ l) (entries-append xs ys)
entries-append (op ∷ xs) ys = entries-append xs ys

find?-append :
    {A : Type 0} (p : A → Bool) (xs ys : List A)
    → any p xs ≡ false
    → find? p (xs ++ ys) ≡ find? p ys
find?-append p [] ys none_there = refl
find?-append p (x ∷ xs) ys none_there = ground (arith, find?-append p xs ys)

find?-hit :
    {A : Type 0} (p : A → Bool) (x : A) (xs : List A) → p x ≡ true → find? p (x ∷ xs) ≡ some x
find?-hit p x xs hit = rw hit

-- If the results hold the entry of the name, up to ASCII case, then whatever other entries come before it
-- and whatever follows, the answer is true exactly if that entry has the value under the attribute; and
-- with no such entry the answer is that there is no such object.
pub compare-target :
    (request : LdapCompareRequest) (others later : List LdapOp) (target : LdapSearchResultEntry)
    (base_dn : Str)
    → any (has_dn request.dn) (entries others) ≡ false
    → has_dn request.dn target ≡ true
    → (compare request (others ++ (search_result_entry target ∷ later)) base_dn
        ≡ LdapOp.compare_result
            (if has_value request target
              then LdapResultCode.compare_true
              else LdapResultCode.compare_false)
            request.dn
          ∷ [])
      × (compare request others base_dn
          ≡ LdapOp.compare_result LdapResultCode.no_such_object base_dn ∷ [])
unfolding compare
compare-target request others later target base_dn elsewhere hit =
    let found =
      ap (find? (has_dn request.dn)) (entries-append others (search_result_entry target ∷ later))
      ∙ find?-append (has_dn request.dn) (entries others) (target ∷ entries later) elsewhere
      ∙ find?-hit (has_dn request.dn) target (entries later) hit in
    (rw found, rw (missing (has_dn request.dn) (entries others) elsewhere))
  where
    missing : {A : Type 0} (p : A → Bool) (xs : List A) → any p xs ≡ false → find? p xs ≡ none
    missing p [] h = refl
    missing p (x ∷ xs) h = ground (arith, missing p xs)
