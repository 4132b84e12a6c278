-- ===== src/Text/Trim.antt =====
-- Trimming white space and lower-casing: both are done once for good.
use mathlib.Core.List.{reverse-reverse, reverse-append, reverse-cons}
use klldap.Base.{
  true, ℕ, ◌≡◌, refl, ap, ◌∙◌, false, [], ◌∷◌, ◌++◌, reverse, arith, All, All-reverse, ◌≡⟨◌⟩◌, ◌∎,
}
use klldap.Text.Case.{to_ascii_lowercase-append}
use klldap.Text.{Str, lower, to_ascii_lowercase, is_whitespace, trim_start, trim_end, trim}

-- There is no white space at either end.
abbrev pub IsTrimmed : Str → Type 0
IsTrimmed s = trim s ≡ s

-- There is no upper-case ASCII letter.
abbrev pub IsLower : Str → Type 0
IsLower s = to_ascii_lowercase s ≡ s

-- The text does not begin with white space.
abbrev NoSpaceFirst : Str → Type 0
NoSpaceFirst [] = Unit
NoSpaceFirst (c ∷ s) = is_whitespace c ≡ false

trim_start-NoSpaceFirst : (s : Str) → NoSpaceFirst (trim_start s)
unfolding trim_start
trim_start-NoSpaceFirst [] = tt
trim_start-NoSpaceFirst (c ∷ s) = ground (arith, trim_start-NoSpaceFirst s)

trim_start_of_NoSpaceFirst : (s : Str) → NoSpaceFirst s → trim_start s ≡ s
unfolding trim_start
trim_start_of_NoSpaceFirst [] h = refl
trim_start_of_NoSpaceFirst (c ∷ s) h = rw h

trim_start-snoc :
    (s : Str) (c : ℕ)
    → is_whitespace c ≡ false
    → trim_start (s ++ (c ∷ [])) ≡ trim_start s ++ (c ∷ [])
unfolding trim_start
trim_start-snoc [] c h = rw h
trim_start-snoc (x ∷ s) c h = ground (arith, trim_start-snoc s c h)

trim_end-cons : (c : ℕ) (s : Str) → is_whitespace c ≡ false → trim_end (c ∷ s) ≡ c ∷ trim_end s
unfolding trim_end
trim_end-cons c s h =
    reverse (trim_start (reverse (c ∷ s)))
    ≡⟨ ap (λ t. reverse (trim_start t)) (reverse-cons c s) ⟩
      reverse (trim_start (reverse s ++ (c ∷ [])))
    ≡⟨ ap reverse (trim_start-snoc (reverse s) c h) ⟩ reverse (trim_start (reverse s) ++ (c ∷ []))
    ≡⟨ reverse-append (trim_start (reverse s)) (c ∷ []) ⟩ c ∷ reverse (trim_start (reverse s)) ∎

trim_end-NoSpaceFirst : (s : Str) → NoSpaceFirst s → NoSpaceFirst (trim_end s)
unfolding trim_end
trim_end-NoSpaceFirst [] h = tt
trim_end-NoSpaceFirst (c ∷ s) h = rw (trim_end-cons c s h) h

trim_end_idem : (s : Str) → trim_end (trim_end s) ≡ trim_end s
unfolding trim_end
trim_end_idem s =
    let t : Str = trim_start (reverse s) in
    ap (λ (u : Str). reverse (trim_start u)) {x = reverse (reverse t)} {y = t} (reverse-reverse t)
    ∙ ap reverse (trim_start_of_NoSpaceFirst t (trim_start-NoSpaceFirst (reverse s)))

-- A trimmed text is left alone.
pub trim-IsTrimmed : (s : Str) → IsTrimmed (trim s)
unfolding trim
trim-IsTrimmed s =
    ap trim_end (trim_start_of_NoSpaceFirst _ (trim_end-NoSpaceFirst _ (trim_start-NoSpaceFirst s)))
    ∙ trim_end_idem (trim_start s)

module _ {ℓ} (P : ℕ → Type ℓ) where
  All-trim_start : (s : Str) → All P s → All P (trim_start s)
  unfolding trim_start
  All-trim_start [] h = tt
  All-trim_start (c ∷ s) h = ground (arith, All-trim_start s h.1)

  -- Trimming removes characters and adds none.
  pub All-trim : (s : Str) → All P s → All P (trim s)
  unfolding trim
  All-trim s h = All-reverse P _ (All-trim_start _ (All-reverse P _ (All-trim_start s h)))

pub All-of_IsLower : (s : Str) → IsLower s → All (λ c. lower c ≡ c) s
unfolding to_ascii_lowercase
All-of_IsLower [] h = tt
All-of_IsLower (c ∷ s) h = (cc h, All-of_IsLower s (cc h))

pub IsLower-of_All : (s : Str) → All (λ c. lower c ≡ c) s → IsLower s
unfolding to_ascii_lowercase
IsLower-of_All [] h = refl
IsLower-of_All (c ∷ s) h = cc (h.0, IsLower-of_All s h.1)

pub trim-IsLower : (s : Str) → IsLower s → IsLower (trim s)
trim-IsLower s h = IsLower-of_All _ (All-trim (λ c. lower c ≡ c) s (All-of_IsLower s h))

is_whitespace-lower : (c : ℕ) → is_whitespace (lower c) ≡ is_whitespace c
unfolding lower
is_whitespace-lower c = ground arith

trim_start-lowercase :
    (s : Str) → trim_start (to_ascii_lowercase s) ≡ to_ascii_lowercase (trim_start s)
unfolding trim_start to_ascii_lowercase
trim_start-lowercase [] = refl
trim_start-lowercase (c ∷ s) = ground (arith, is_whitespace-lower c, trim_start-lowercase s)

reverse-lowercase : (s : Str) → reverse (to_ascii_lowercase s) ≡ to_ascii_lowercase (reverse s)
unfolding to_ascii_lowercase
reverse-lowercase [] = refl
reverse-lowercase (c ∷ s) = simp (reverse-cons, reverse-lowercase s, to_ascii_lowercase-append)

-- White space has no case.
pub trim-lowercase : (s : Str) → trim (to_ascii_lowercase s) ≡ to_ascii_lowercase (trim s)
unfolding trim trim_end
trim-lowercase s = simp (trim_start-lowercase, reverse-lowercase)

-- Trimming leaves nothing only of white space.
trim_start-eq-nil : (s : Str) → trim_start s ≡ [] → All (λ c. is_whitespace c ≡ true) s
unfolding trim_start
trim_start-eq-nil [] h = tt
trim_start-eq-nil (c ∷ s) h = (ground arith, trim_start-eq-nil s (ground arith))

pub trim-eq-nil : (s : Str) → trim s ≡ [] → All (λ c. is_whitespace c ≡ true) s
unfolding trim
trim-eq-nil s h = trim_start-eq-nil s (nil_of (trim_start s) (trim_start-NoSpaceFirst s) h)
  where
    nil_of : (u : Str) → NoSpaceFirst u → trim_end u ≡ [] → u ≡ []
    nil_of [] first e = refl
    nil_of (c ∷ u) first e = cc (trim_end-cons c u first)

trim_start_of_space : (s : Str) → All (λ c. is_whitespace c ≡ true) s → trim_start s ≡ []
unfolding trim_start
trim_start_of_space [] h = refl
trim_start_of_space (c ∷ s) h = rw h.0 (trim_start_of_space s h.1)

pub trim_of_space : (s : Str) → All (λ c. is_whitespace c ≡ true) s → trim s ≡ []
unfolding trim trim_end trim_start
trim_of_space s h = ap trim_end (trim_start_of_space s h)
