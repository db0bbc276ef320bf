-- ===== src/Common/Results.antt =====
-- Fallible code: Rust's `Result`, with the `?` operator as the bind of a `do` block.
use mathlib.Core.Path.{◌≡◌, refl}
use mathlib.Core.Logic.{◌≢◌, ◌⊎◌, inl, inr}
use mathlib.Core.Bool.{Bool, true, false}

pub data Result {ℓ} (E : Type 0) (A : Type ℓ) : Type ℓ where
  err : E → Result E A
  ok : A → Result E A

-- `ensure!(test, e)`
abbrev pub ensure : {E : Type 0} → Bool → E → Result E (Unit {0})
ensure false e = err e
ensure true e = ok tt

infixl 5 ◌>>=◌ ◌>>◌
abbrev pub ◌>>=◌ {ℓ κ} :
    {E : Type 0} {A : Type ℓ} {B : Type κ} → Result E A → (A → Result E B) → Result E B
err x >>= next = err x
ok y >>= next = next y

abbrev pub ◌>>◌ {ℓ} : {E : Type 0} {B : Type ℓ} → Result E (Unit {0}) → Result E B → Result E B
first >> second = first >>= (λ done. second)

pub Result-cases {ℓ} :
    {E : Type 0} {A : Type ℓ} (m : Result E A) → ((y : A) × (m ≡ ok y)) ⊎ ((x : E) × (m ≡ err x))
Result-cases (err x) = inr (x, refl)
Result-cases (ok y) = inl (y, refl)

-- A chain that succeeds had a first step that succeeded.
pub >>=-eq-ok {ℓ κ} :
    {E : Type 0} {A : Type ℓ} {B : Type κ} (m : Result E A) (next : A → Result E B) {z : B}
    → (m >>= next) ≡ ok z
    → (y : A) × (m ≡ ok y) × (next y ≡ ok z)
>>=-eq-ok (err x) next h = cc
>>=-eq-ok (ok y) next h = (y, refl, h)

-- The result is not the error `x`.
abbrev pub Avoids {ℓ} : {E : Type 0} {A : Type ℓ} → E → Result E A → Type 0
Avoids x (ok a) = Unit {0}
Avoids x (err e) = e ≢ x

pub Avoids-bind {ℓ κ} :
    {E : Type 0} {A : Type ℓ} {B : Type κ} (x : E) (m : Result E A) (f : A → Result E B)
    → Avoids x m
    → ((a : A) → m ≡ ok a → Avoids x (f a))
    → Avoids x (m >>= f)
Avoids-bind x (ok a) f h k = k a refl
Avoids-bind x (err e) f h k = h

pub Avoids-ne {ℓ} : {E : Type 0} {A : Type ℓ} (x : E) (m : Result E A) → Avoids x m → m ≢ err x
Avoids-ne x (ok a) h p = cc
Avoids-ne x (err e) h p = h (cc)
