-- ===== src/Ldap/Ou/Subtree.antt =====
-- `is_subtree` against its meaning: the name ends in the base, up to ASCII case.
use klldap.Base.{
  ℕ, zero, suc, append-nil, ◌+◌, ◌-◌, ◌≤◌, ◌≡◌, refl, ap, sym, ◌↔◌, true, false, [], ◌∷◌, ◌++◌,
  arith, length, drop, length-append, ltb,
}
use klldap.Text.{is_empty, to_ascii_lowercase}
use klldap.Text.Case.{eq_ignore_ascii_case_iff}
use klldap.Ldap.Ou.{DnParts, same_parts, is_subtree}

-- Two names with as many parts, equal part by part up to ASCII case.
abbrev pub SameName : DnParts → DnParts → Type 0
SameName [] [] = Unit
SameName [] (q ∷ qs) = ⊥
SameName (p ∷ ps) [] = ⊥
SameName ((k, v) ∷ ps) ((k', v') ∷ qs) =
    (to_ascii_lowercase k ≡ to_ascii_lowercase k')
    × (to_ascii_lowercase v ≡ to_ascii_lowercase v')
    × SameName ps qs

-- The name is a prefix followed by the base.
abbrev pub EndsIn : DnParts → DnParts → Type 0
EndsIn parts base = (above suffix : DnParts) × (parts ≡ above ++ suffix) × SameName suffix base

pub SameName-refl : (ps : DnParts) → SameName ps ps
SameName-refl [] = tt
SameName-refl ((k, v) ∷ ps) = (refl, refl, SameName-refl ps)

pub SameName-length : (ps qs : DnParts) → SameName ps qs → length ps ≡ length qs
SameName-length [] [] h = refl
SameName-length [] (q ∷ qs) h = absurd h
SameName-length (p ∷ ps) [] h = absurd h
SameName-length ((k, v) ∷ ps) ((k', v') ∷ qs) h = ap suc (SameName-length ps qs h.2)

same_parts-SameName :
    (ps qs : DnParts) → length ps ≡ length qs → same_parts ps qs ≡ true → SameName ps qs
same_parts-SameName [] [] e h = tt
same_parts-SameName [] (q ∷ qs) e h = absurd (omega arith)
same_parts-SameName (p ∷ ps) [] e h = absurd (omega arith)
same_parts-SameName ((k, v) ∷ ps) ((k', v') ∷ qs) e h = (
  (eq_ignore_ascii_case_iff k k').0 (ground arith),
  (eq_ignore_ascii_case_iff v v').0 (ground arith),
  same_parts-SameName ps qs (omega arith) (ground arith),
)

SameName-same_parts : (ps qs : DnParts) → SameName ps qs → same_parts ps qs ≡ true
SameName-same_parts [] [] h = refl
SameName-same_parts [] (q ∷ qs) h = absurd h
SameName-same_parts (p ∷ ps) [] h = refl
SameName-same_parts ((k, v) ∷ ps) ((k', v') ∷ qs) h =
    rw ((eq_ignore_ascii_case_iff k k').1 h.0)
      (rw ((eq_ignore_ascii_case_iff v v').1 h.1) (SameName-same_parts ps qs h.2))

drop_parts :
    (n : ℕ) (ps : DnParts)
    → n ≤ length ps
    → (above : DnParts) × (ps ≡ above ++ drop n ps) × (length (drop n ps) + n ≡ length ps)
drop_parts zero ps h = ([], refl, omega arith)
drop_parts (suc n) [] h = absurd (omega arith)
drop_parts (suc n) (p ∷ ps) h =
    let (above, e, l) = drop_parts n ps (omega arith) in (p ∷ above, ap (λ r. p ∷ r) e, omega arith)

drop-append : (above ps : DnParts) → drop (length above) (above ++ ps) ≡ ps
drop-append [] ps = refl
drop-append (a ∷ above) ps = drop-append above ps

drop_above :
    (above ps : DnParts) (n : ℕ)
    → length ps ≡ n
    → drop (length (above ++ ps) - n) (above ++ ps) ≡ ps
drop_above above ps n h =
    let total = length-append above ps in
    let same : length (above ++ ps) - n ≡ length above = omega arith in
    rw same (drop-append above ps)

is_subtree-EndsIn : (parts base : DnParts) → is_subtree parts base ≡ true → EndsIn parts base
unfolding is_subtree is_empty
is_subtree-EndsIn parts [] h = (parts, [], sym (append-nil parts), tt)
is_subtree-EndsIn parts (b ∷ base) h =
    let (above, e, l) = drop_parts (length parts - length (b ∷ base)) parts (omega arith) in
    (
      above,
      drop (length parts - length (b ∷ base)) parts,
      e,
      same_parts-SameName _ (b ∷ base) (ground arith) (ground arith),
    )

EndsIn-is_subtree : (parts base : DnParts) → EndsIn parts base → is_subtree parts base ≡ true
unfolding is_subtree is_empty
EndsIn-is_subtree parts [] h = refl
EndsIn-is_subtree parts (b ∷ base) (above, suffix, e, same) =
    let l = SameName-length suffix (b ∷ base) same in
    let total = length-append above suffix in
    let fits : ltb (length (above ++ suffix)) (length (b ∷ base)) ≡ false = ground arith in
    rw (e, fits, drop_above above suffix (length (b ∷ base)) l)
      (SameName-same_parts suffix (b ∷ base) same)

-- `is_subtree` answers true exactly when the name is a prefix followed by the base, up to ASCII
-- case.
pub is_subtree_iff : (parts base : DnParts) → (is_subtree parts base ≡ true) ↔ EndsIn parts base
is_subtree_iff parts base = (is_subtree-EndsIn parts base, EndsIn-is_subtree parts base)
