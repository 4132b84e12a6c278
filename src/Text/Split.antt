-- ===== src/Text/Split.antt =====
-- Splitting a text and joining its pieces.
use klldap.Base.{
  ℕ, ◌≡◌, refl, ap, ◌∙◌, ◌≢◌, false, ◌||◌, List, [], ◌∷◌, ◌++◌, append_assoc, arith, Bool-cases,
  inl, inr, ◌==◌, All,
}
use klldap.Text.{Str, push_front, contains, split, join}

-- The character does not occur in the text.
abbrev pub Lacks : ℕ → Str → Type 0
Lacks c s = contains c s ≡ false

pub contains-append : (c : ℕ) (s t : Str) → contains c (s ++ t) ≡ (contains c s || contains c t)
unfolding contains
contains-append c [] t = refl
contains-append c (x ∷ s) t = ground (arith, contains-append c s t)

-- A text without the separator is one piece.
pub split-eq-one : (c : ℕ) (s : Str) → Lacks c s → split c s ≡ s ∷ []
unfolding split contains
split-eq-one c [] h = refl
split-eq-one c (x ∷ s) h = ground (arith, split-eq-one c s)

-- Up to the first separator the text is the first piece.
pub split-append : (c : ℕ) (s t : Str) → Lacks c s → split c (s ++ (c ∷ t)) ≡ s ∷ split c t
unfolding split contains
split-append c [] t h = ground arith
split-append c (x ∷ s) t h = ground (arith, split-append c s t)

-- Splitting what was joined gives the pieces back.
pub split-join :
    (c : ℕ) (p : Str) (ps : List Str) → All (Lacks c) (p ∷ ps) → split c (join c (p ∷ ps)) ≡ p ∷ ps
unfolding join
split-join c p [] h = split-eq-one c p h.0
split-join c p (q ∷ ps) h =
    split-append c p (join c (q ∷ ps)) h.0 ∙ ap (λ r. p ∷ r) (split-join c q ps h.1)

push_front-ne-nil : (c : ℕ) (ps : List Str) → push_front c ps ≢ []
push_front-ne-nil c [] h = cc
push_front-ne-nil c (p ∷ ps) h = cc

-- There is always a piece.
pub split-ne-nil : (c : ℕ) (s : Str) → split c s ≢ []
unfolding split
split-ne-nil c [] h = cc
split-ne-nil c (x ∷ s) h = ground (arith, push_front-ne-nil x (split c s))

All-Lacks-push_front :
    (c x : ℕ) (ps : List Str)
    → (x == c) ≡ false
    → All (Lacks c) ps
    → All (Lacks c) (push_front x ps)
unfolding contains
All-Lacks-push_front c x [] h k = (ground arith, tt)
All-Lacks-push_front c x (p ∷ ps) h k = (ground (arith, k.0), k.1)

-- No piece holds the separator.
pub split-All-Lacks : (c : ℕ) (s : Str) → All (Lacks c) (split c s)
unfolding split contains
split-All-Lacks c [] = (refl, tt)
split-All-Lacks c (x ∷ s) =
    ground (arith, split-All-Lacks c s, All-Lacks-push_front c x (split c s))

pub All-of_Lacks : (c : ℕ) (s : Str) → Lacks c s → All (λ x. x ≢ c) s
unfolding contains
All-of_Lacks c [] h = tt
All-of_Lacks c (x ∷ s) h = (ground arith, All-of_Lacks c s (ground arith))

pub Lacks-of_All : (c : ℕ) (s : Str) → All (λ x. x ≢ c) s → Lacks c s
unfolding contains
Lacks-of_All c [] h = refl
Lacks-of_All c (x ∷ s) h = ground (arith, h.0, Lacks-of_All c s h.1)

module _ {ℓ} (P : ℕ → Type ℓ) where
  All-push_front : (x : ℕ) (ps : List Str) → P x → All (All P) ps → All (All P) (push_front x ps)
  All-push_front x [] h k = ((h, tt), tt)
  All-push_front x (p ∷ ps) h k = ((h, k.0), k.1)

  -- The pieces have the characters of the text.
  pub All-split : (c : ℕ) (s : Str) → All P s → All (All P) (split c s)
  unfolding split
  All-split c [] h = (tt, tt)
  All-split c (x ∷ s) h = elim (Bool-cases (x == c)) [
    | inl e ↦ rw e (tt, All-split c s h.1)
    | inr e ↦ rw e (All-push_front x (split c s) h.0 (All-split c s h.1))
  ]

-- Joining two lists of pieces, neither empty.
pub join-append :
    (c : ℕ) (p q : Str) (ps qs : List Str)
    → join c ((p ∷ ps) ++ (q ∷ qs)) ≡ join c (p ∷ ps) ++ (c ∷ join c (q ∷ qs))
unfolding join
join-append c p q [] qs = refl
join-append c p q (r ∷ ps) qs = simp (join-append c r q ps qs, append_assoc)
