-- ===== src/Ldap/World/Laws.antt =====
-- What a run that succeeded went through.
use klldap.Base.{◌≡◌, refl, Option, none, some, Result, ok, err}
use klldap.Ldap.World.{Outcome, done, failed, panicked, Run, and_then, expect, from_result, ◌>>=◌}

module _ {ℓ κ} {S E : Type 0} {A : Type ℓ} {B : Type κ} where
  and_then-done :
      (next : A → Run S E B) (r : Outcome E A × S) {b : B} {s' : S}
      → and_then next r ≡ (done b, s')
      → (a : A) × (s₁ : S) × (r ≡ (done a, s₁)) × (next a s₁ ≡ (done b, s'))
  and_then-done next (done a, s₁) h = (a, s₁, refl, h)
  and_then-done next (failed e, s₁) h = cc
  and_then-done next (panicked, s₁) h = cc

  pub >>=-done :
      (first : Run S E A) (next : A → Run S E B) (s : S) {b : B} {s' : S}
      → (first >>= next) s ≡ (done b, s')
      → (a : A) × (s₁ : S) × (first s ≡ (done a, s₁)) × (next a s₁ ≡ (done b, s'))
  >>=-done first next s h = and_then-done next (first s) h

module _ {ℓ} {S E F : Type 0} {A : Type ℓ} where
  pub from_result-done :
      (to_error : F → E) (r : Result F A × S) {a : A} {s' : S}
      → from_result to_error r ≡ (done a, s')
      → r ≡ (ok a, s')
  from_result-done to_error (ok a, s₁) h = cc h
  from_result-done to_error (err e, s₁) h = cc

module _ {ℓ} {S E : Type 0} {A : Type ℓ} where
  pub expect-done :
      (o : Option A) (s : S) {a : A} {s' : S}
      → expect {E = E} o s ≡ (done a, s')
      → (o ≡ some a) × (s ≡ s')
  expect-done (some a) s h = (cc h, cc h)
  expect-done none s h = cc

-- A run ends in one value.
pub done_injective {ℓ} :
    {E : Type 0} {A : Type ℓ} {r : Outcome E A} {a b : A} → r ≡ done a → r ≡ done b → a ≡ b
done_injective h k = cc (h, k)
