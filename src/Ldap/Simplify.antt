-- ===== src/Ldap/Simplify.antt =====
-- The pipeline that crates/ldap/src/search/filters.rs runs four times, for the `And` and the `Or` of
-- users and of groups: drop the neutral filters, splice in the parts of a nested connective, collect
-- the first error or all the filters, and pack what is left.
pub mod Laws
use klldap.Base.{Bool, true, not, List, [], ◌∷◌, ◌++◌, map, retain, ok, err, collect, ◌>>=◌}
use klldap.Ldap.Error.{LdapResult}

module _ {F : Type 0} where
  -- `matches!(c, Ok(True))`, negated.
  abbrev pub is_kept : (F → Bool) → LdapResult F → Bool
  is_kept neutral (ok f) = not (neutral f)
  is_kept neutral (err e) = true

  abbrev pub splice : (F → List F) → LdapResult F → List (LdapResult F)
  splice parts (ok f) = map ok (parts f)
  splice parts (err e) = err e ∷ []

  abbrev pub splice_all : (F → List F) → List (LdapResult F) → List (LdapResult F)
  splice_all parts [] = []
  splice_all parts (r ∷ rs) = splice parts r ++ splice_all parts rs

  abbrev pub pack : F → (List F → F) → List F → F
  pack unit join [] = unit
  pack unit join (f ∷ []) = f
  pack unit join (f ∷ (g ∷ fs)) = join (f ∷ (g ∷ fs))

  unfoldable pub simplify :
      (F → Bool) → (F → List F) → F → (List F → F) → List (LdapResult F) → LdapResult F
  simplify neutral parts unit join rs = do
    res ← collect (splice_all parts (retain (is_kept neutral) rs))
    ok (pack unit join res)
