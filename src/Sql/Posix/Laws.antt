-- ===== src/Sql/Posix/Laws.antt =====
-- The search for a number ends, and finds the smallest that is free.
use klldap.Base.{
  ℕ, zero, suc, ◌≤◌, ◌≡◌, refl, sym, subst, ap, ◌∙◌, Bool, true, false, Bool-cases, inl, inr,
  Result, ok, err, arith,
}
use klldap.Text.{Str}
use klldap.Domain.{ℤ, DomainError}
use klldap.Sql.Posix.Order.{
  leq, succ, distance, is_i64_max, leq_refl, leq_trans, leq-succ, leq-cases, is_i64_max-leq,
  wrapping_succ-small, succ-leq,
}
use klldap.Sql.Posix.{Search, found, exhausted, answered, search, next_available_number}

abbrev pub is_exhausted : Search → Bool
is_exhausted exhausted = true
is_exhausted other = false

module _ (i64_to_string : ℤ → Str) (taken : ℤ → Result DomainError Bool) (kind : Str)
    (start max : ℤ) where
  answered-ends :
      (answer : Result DomainError Bool) (candidate : ℤ) (next : Search)
      → is_exhausted next ≡ false
      → is_exhausted (answered i64_to_string taken answer candidate next) ≡ false
  answered-ends (err e) candidate next h = refl
  answered-ends (ok false) candidate next h = refl
  answered-ends (ok true) candidate next h = ground arith

  search-above :
      (fuel : ℕ) (candidate : ℤ)
      → leq candidate max ≡ false
      → is_exhausted (search i64_to_string taken kind start max (suc fuel) candidate) ≡ false
  unfolding search
  search-above fuel candidate h = rw h refl

  search-ends :
      (fuel : ℕ) (candidate : ℤ)
      → suc (suc (distance candidate max)) ≤ fuel
      → is_i64_max max ≡ false
      → is_exhausted (search i64_to_string taken kind start max fuel candidate) ≡ false
  unfolding search
  search-ends zero candidate h small = ground (arith, h)
  search-ends (suc zero) candidate h small = ground (arith, h)
  search-ends (suc (suc fuel)) candidate h small = elim (Bool-cases (leq candidate max)) [
    | inr above ↦ rw above refl
    | inl below ↦
        let counts = wrapping_succ-small candidate (is_i64_max-leq candidate max below small) in
        elim (leq-cases candidate max below) [
          | inl last ↦
              rw (below, counts)
                (answered-ends (taken candidate) candidate _ (
                  search-above fuel (succ candidate)
                    (subst (λ m. leq (succ candidate) m ≡ false) last (succ-leq candidate))))
          | inr (next, closer) ↦
              rw (below, counts)
                (answered-ends (taken candidate) candidate _
                  (search-ends (suc fuel) (succ candidate) (omega (arith, h, closer)) small))
        ]
  ]

module _ (i64_to_string : ℤ → Str) (t : ℤ → Bool) (kind : Str) (start max : ℤ) where
  -- The search from a candidate gives a number from there on that is free, and none smaller is.
  search-smallest :
      (fuel : ℕ) (candidate free : ℤ)
      → suc (suc (distance candidate max)) ≤ fuel
      → is_i64_max max ≡ false
      → leq candidate free ≡ true
      → leq free max ≡ true
      → t free ≡ false
      → (r : ℤ) × (search i64_to_string (λ z. ok (t z)) kind start max fuel candidate ≡ found r)
        × (leq candidate r ≡ true)
        × (leq r free ≡ true)
        × (t r ≡ false)
  unfolding search
  search-smallest zero candidate free enough small up down here = ground (arith, enough)
  search-smallest (suc fuel) candidate free enough small up down here =
      let below = leq_trans candidate free max up down in
      elim (Bool-cases (t candidate)) [
        | inr unused ↦ (candidate, rw (below, unused) refl, leq_refl candidate, up, unused)
        | inl used ↦ elim (leq-cases candidate free up) [
          | inl same ↦ let clash : true ≡ false = sym used ∙ ap t same ∙ here in cc clash
          | inr (next_up, closer) ↦ elim (leq-cases candidate max below) [
            | inl last ↦
                let clash : true ≡ false =
                  sym (
                    leq_trans (succ candidate) free candidate next_up
                      (subst (λ m. leq free m ≡ true) (sym last) down))
                  ∙ succ-leq candidate in
                cc clash
            | inr (next_down, nearer) ↦
                let (r, finds, from, to, is_free) =
                  search-smallest fuel (succ candidate) free (omega (arith, enough, nearer)) small
                    next_up down here in
                (
                  r,
                  rw
                      (
                        below,
                        used,
                        wrapping_succ-small candidate (is_i64_max-leq candidate max below small),
                      )
                      finds,
                  leq_trans candidate (succ candidate) r (leq-succ candidate) from,
                  to,
                  is_free,
                )
          ]
        ]
      ]

-- If the maximum is below the largest `i64`, the search for a number comes to an end, whatever the
-- database answers: the range is searched before the fuel is spent.
pub next_available_number-ends :
    (i64_to_string : ℤ → Str) (taken : ℤ → Result DomainError Bool) (kind : Str) (start max : ℤ)
    → is_i64_max max ≡ false
    → is_exhausted (next_available_number i64_to_string taken kind start max) ≡ false
unfolding next_available_number
next_available_number-ends i64_to_string taken kind start max small =
    elim (Bool-cases (leq start max)) [
      | inl range ↦ rw range (
          search-ends i64_to_string taken kind start max (suc (suc (distance start max))) start
            (omega arith) small)
      | inr empty ↦ rw empty refl
    ]

-- If a number between the start and the maximum is free, and the maximum is below the largest `i64`, the
-- search finds a number that is free, that is not below the start, and that is not above any free number
-- of the range: so it finds the smallest, and it is within the range.
pub next_available_number-smallest :
    (i64_to_string : ℤ → Str) (t : ℤ → Bool) (kind : Str) (start max free : ℤ)
    → is_i64_max max ≡ false
    → leq start free ≡ true
    → leq free max ≡ true
    → t free ≡ false
    → (r : ℤ) × (next_available_number i64_to_string (λ z. ok (t z)) kind start max ≡ found r)
      × (leq start r ≡ true)
      × (leq r free ≡ true)
      × (t r ≡ false)
unfolding next_available_number
next_available_number-smallest i64_to_string t kind start max free small up down here =
    rw (leq_trans start free max up down) (
      search-smallest i64_to_string t kind start max (suc (suc (distance start max))) start free
        (omega arith) small up down here)
