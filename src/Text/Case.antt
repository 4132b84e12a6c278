-- ===== src/Text/Case.antt =====
-- Equality of texts, and equality up to ASCII case.
use klldap.Base.{ℕ, ◌≡◌, refl, ◌↔◌, true, [], ◌∷◌, ◌++◌, arith}
use klldap.Text.{Str, str_eq, lower, to_ascii_lowercase, eq_ignore_ascii_case, contains}

pub str_eq-eq : (s t : Str) → str_eq s t ≡ true → s ≡ t
unfolding str_eq
str_eq-eq [] [] h = refl
str_eq-eq [] (y ∷ t) h = cc
str_eq-eq (x ∷ s) [] h = cc
str_eq-eq (x ∷ s) (y ∷ t) h = ground (arith, str_eq-eq s t)

pub str_eq_refl : (s : Str) → str_eq s s ≡ true
unfolding str_eq
str_eq_refl [] = refl
str_eq_refl (x ∷ s) = ground (arith, str_eq_refl s)

pub str_eq_iff : (s t : Str) → (str_eq s t ≡ true) ↔ (s ≡ t)
str_eq_iff s t = (str_eq-eq s t, λ e. rw e (str_eq_refl t))

pub lower_idem : (c : ℕ) → lower (lower c) ≡ lower c
unfolding lower
lower_idem c = ground arith

pub to_ascii_lowercase_idem :
    (s : Str) → to_ascii_lowercase (to_ascii_lowercase s) ≡ to_ascii_lowercase s
unfolding to_ascii_lowercase
to_ascii_lowercase_idem [] = refl
to_ascii_lowercase_idem (c ∷ s) = cc (lower_idem c, to_ascii_lowercase_idem s)

pub to_ascii_lowercase-append :
    (s t : Str) → to_ascii_lowercase (s ++ t) ≡ to_ascii_lowercase s ++ to_ascii_lowercase t
unfolding to_ascii_lowercase
to_ascii_lowercase-append [] t = refl
to_ascii_lowercase-append (c ∷ s) t = cc (to_ascii_lowercase-append s t)

-- Equality up to ASCII case is equality of the lower-case texts.
pub eq_ignore_ascii_case-lowercase :
    (s t : Str) → eq_ignore_ascii_case s t ≡ str_eq (to_ascii_lowercase s) (to_ascii_lowercase t)
unfolding eq_ignore_ascii_case str_eq to_ascii_lowercase
eq_ignore_ascii_case-lowercase [] [] = refl
eq_ignore_ascii_case-lowercase [] (y ∷ t) = refl
eq_ignore_ascii_case-lowercase (x ∷ s) [] = refl
eq_ignore_ascii_case-lowercase (x ∷ s) (y ∷ t) = rw (eq_ignore_ascii_case-lowercase s t)

pub eq_ignore_ascii_case_iff :
    (s t : Str) → (eq_ignore_ascii_case s t ≡ true) ↔ (to_ascii_lowercase s ≡ to_ascii_lowercase t)
eq_ignore_ascii_case_iff s t = rw eq_ignore_ascii_case-lowercase (str_eq_iff _ _)

pub eq_ignore_ascii_case_refl : (s : Str) → eq_ignore_ascii_case s s ≡ true
eq_ignore_ascii_case_refl s = (eq_ignore_ascii_case_iff s s).1 refl

pub eq_ignore_ascii_case-lower_left :
    (s t : Str) → eq_ignore_ascii_case (to_ascii_lowercase s) t ≡ eq_ignore_ascii_case s t
eq_ignore_ascii_case-lower_left s t = simp (eq_ignore_ascii_case-lowercase, to_ascii_lowercase_idem)

-- Lower-casing neither adds nor removes a character that is no letter.
pub contains-lowercase :
    (c : ℕ) (s : Str)
    → lower c ≡ c
    → ((d : ℕ) → lower d ≡ c → d ≡ c)
    → contains c (to_ascii_lowercase s) ≡ contains c s
unfolding contains to_ascii_lowercase
contains-lowercase c [] fixed only = refl
contains-lowercase c (x ∷ s) fixed only = ground (arith, contains-lowercase c s fixed only, only x)
