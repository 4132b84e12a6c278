-- ===== src/Sql/Posix/Order.antt =====
-- The order of the integers, the next one, and the way from one to another.
use klldap.Base.{
  ℕ, zero, suc, ◌+◌, ◌-◌, ◌≡◌, refl, ◌⊎◌, inl, inr, Bool, true, false, leb, arith, Bool-cases,
  if◌then◌else◌,
}
use klldap.Domain.{ℤ, pos, negsuc}

unfoldable pub leq : ℤ → ℤ → Bool
leq (pos a) (pos b) = leb a b
leq (pos a) (negsuc b) = false
leq (negsuc a) (pos b) = true
leq (negsuc a) (negsuc b) = leb b a

unfoldable pub succ : ℤ → ℤ
succ (pos n) = pos (suc n)
succ (negsuc zero) = pos 0
succ (negsuc (suc n)) = negsuc n

-- How many steps lead from one integer up to another; none lead down.
unfoldable pub distance : ℤ → ℤ → ℕ
distance (pos a) (pos b) = b - a
distance (pos a) (negsuc b) = 0
distance (negsuc a) (pos b) = suc a + b
distance (negsuc a) (negsuc b) = a - b

-- `i64::MAX`, or beyond.
unfoldable pub is_i64_max : ℤ → Bool
is_i64_max (pos n) = leb 9223372036854775807 n
is_i64_max (negsuc n) = false

-- `+ 1` on `i64`, which wraps in a build without overflow checks, as the release is.
unfoldable pub wrapping_succ : ℤ → ℤ
wrapping_succ z = if is_i64_max z then negsuc 9223372036854775807 else succ z

pub wrapping_succ-small : (z : ℤ) → is_i64_max z ≡ false → wrapping_succ z ≡ succ z
unfolding wrapping_succ
wrapping_succ-small z h = rw h refl

pub leq_refl : (z : ℤ) → leq z z ≡ true
unfolding leq
leq_refl (pos n) = ground arith
leq_refl (negsuc n) = ground arith

pub leq_trans : (x y z : ℤ) → leq x y ≡ true → leq y z ≡ true → leq x z ≡ true
unfolding leq
leq_trans (pos a) (pos b) (pos c) h k = ground arith
leq_trans (pos a) (pos b) (negsuc c) h k = cc k
leq_trans (pos a) (negsuc b) z h k = cc h
leq_trans (negsuc a) (pos b) (pos c) h k = refl
leq_trans (negsuc a) (pos b) (negsuc c) h k = cc k
leq_trans (negsuc a) (negsuc b) (pos c) h k = refl
leq_trans (negsuc a) (negsuc b) (negsuc c) h k = ground arith

pub leq-succ : (z : ℤ) → leq z (succ z) ≡ true
unfolding leq succ
leq-succ (pos n) = ground arith
leq-succ (negsuc zero) = refl
leq-succ (negsuc (suc n)) = ground arith

-- What is below is the same, or the next one is below too and one step closer.
pub leq-cases :
    (z max : ℤ)
    → leq z max ≡ true
    → (z ≡ max) ⊎ ((leq (succ z) max ≡ true) × (distance z max ≡ suc (distance (succ z) max)))
unfolding leq succ distance
leq-cases (pos a) (pos b) h = elim (Bool-cases (leb (suc a) b)) [
  | inl below ↦ inr (below, ground arith)
  | inr above ↦ let same : a ≡ b = ground arith in inl (rw same refl)
]
leq-cases (pos a) (negsuc b) h = cc h
leq-cases (negsuc zero) (pos b) h = inr (ground arith, omega arith)
leq-cases (negsuc (suc a)) (pos b) h = inr (refl, omega arith)
leq-cases (negsuc zero) (negsuc b) h = let same : 0 ≡ b = ground arith in inl (rw same refl)
leq-cases (negsuc (suc a)) (negsuc b) h = elim (Bool-cases (leb b a)) [
  | inl below ↦ inr (below, ground arith)
  | inr above ↦ let same : suc a ≡ b = ground arith in inl (rw same refl)
]

pub is_i64_max-leq : (z max : ℤ) → leq z max ≡ true → is_i64_max max ≡ false → is_i64_max z ≡ false
unfolding leq is_i64_max
is_i64_max-leq (pos a) (pos b) h k = ground arith
is_i64_max-leq (pos a) (negsuc b) h k = cc h
is_i64_max-leq (negsuc a) max h k = refl

pub succ-leq : (z : ℤ) → leq (succ z) z ≡ false
unfolding leq succ
succ-leq (pos n) = ground arith
succ-leq (negsuc zero) = refl
succ-leq (negsuc (suc n)) = ground arith
