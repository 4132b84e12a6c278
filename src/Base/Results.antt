-- ===== src/Base/Results.antt =====
-- Rust's `Result`, with the error type first, and the combinators that the crates use.
use mathlib.Core.Path.{◌≡◌, refl, sym, ap, ◌∙◌}
use mathlib.Core.List.{List, [], ◌∷◌}
use mathlib.Core.Option.{Option, none, some}

pub data Result {ℓ κ} (E : Type ℓ) (A : Type κ) : Type (ℓ ⊔ κ) where
  err : E → Result E A
  ok : A → Result E A

-- The operator `?`: a failure returns, and a value goes on to the rest.
infixl 10 ◌>>=◌
abbrev pub ◌>>=◌ {κ ν μ} :
    {E : Type κ} {V : Type ν} {W : Type μ} → Result E V → (V → Result E W) → Result E W
err failure >>= rest = err failure
ok value >>= rest = rest value

abbrev pub map_err {ℓ κ λ'} :
    {E : Type ℓ} {F : Type κ} {A : Type λ'} → (E → F) → Result E A → Result F A
map_err f (ok a) = ok a
map_err f (err e) = err (f e)

abbrev pub map_ok {ℓ κ λ'} :
    {E : Type ℓ} {A : Type κ} {B : Type λ'} → (A → B) → Result E A → Result E B
map_ok f (ok a) = ok (f a)
map_ok f (err e) = err e

-- `Option::ok_or_else`.
abbrev pub ok_or {ℓ κ} : {E : Type ℓ} {A : Type κ} → E → Option A → Result E A
ok_or e none = err e
ok_or e (some a) = ok a

-- `Iterator::collect` into a `Result`: the first error, or all the values.
abbrev pub collect {ℓ κ} : {E : Type ℓ} {A : Type κ} → List (Result E A) → Result E (List A)
collect [] = ok []
collect (r ∷ rs) = do a ← r; as' ← collect rs; ok (a ∷ as')

abbrev value_or {ℓ κ} : {E : Type ℓ} {A : Type κ} → A → Result E A → A
value_or default (ok a) = a
value_or default (err e) = default

-- A result holds one value.
pub ok_injective {ℓ κ} :
    {E : Type ℓ} {A : Type κ} {r : Result E A} {a b : A} → r ≡ ok a → r ≡ ok b → a ≡ b
ok_injective {a = a} h k = ap (value_or a) (sym h ∙ k)

-- What succeeds as a whole succeeded in its first step, with a value that the rest took on.
pub >>=-eq-ok {κ ν μ} :
    {E : Type κ} {V : Type ν} {W : Type μ} (first : Result E V) (rest : V → Result E W) {w : W}
    → first >>= rest ≡ ok w
    → (v : V) × (first ≡ ok v) × (rest v ≡ ok w)
>>=-eq-ok (err failure) rest h = cc
>>=-eq-ok (ok value) rest h = (value, refl, h)
