-- ===== src/Base/Results.antt =====
-- `Result<A, E>`, and its `?`.
use mathlib.Core.Path.{◌≡◌, refl}
use mathlib.Core.Logic.{◌≢◌, ◌⊎◌, inl, inr}

pub data Result {ℓ κ} (E : Type ℓ) (A : Type κ) : Type (ℓ ⊔ κ) where
  ok : A → Result E A
  err : E → Result E A

infixl 5 ◌>>=◌ ◌>>◌
abbrev pub ◌>>=◌ {ℓ κ μ} :
    {E : Type ℓ} {A : Type κ} {B : Type μ} → Result E A → (A → Result E B) → Result E B
r >>= next = elim r [ err e ↦ err e | ok a ↦ next a ]

abbrev pub ◌>>◌ {ℓ κ} : {E : Type ℓ} {B : Type κ} → Result E (Unit {0}) → Result E B → Result E B
checked >> after = checked >>= (λ done. after)

-- A successful chain takes the value of its first step.
pub >>=-eq-ok {ℓ κ μ} :
    {E : Type ℓ} {A : Type κ} {B : Type μ} (r : Result E A) (next : A → Result E B) {final : B}
    → (r >>= next) ≡ ok final
    → (a : A) × (r ≡ ok a) × (next a ≡ ok final)
>>=-eq-ok (err e) next chain = cc
>>=-eq-ok (ok a) next chain = (a, refl, chain)

pub ok-injective {ℓ κ} :
    {E : Type ℓ} {A : Type κ} {a b : A} → ◌≡◌ {A = Result E A} (ok a) (ok b) → a ≡ b
ok-injective h = cc

-- A chain of steps none of which fails with `e` does not fail with `e`.
pub >>=-ne-err {ℓ κ μ} :
    {E : Type ℓ} {A : Type κ} {B : Type μ} (r : Result E A) (next : A → Result E B) (e : E)
    → r ≢ err e
    → ((a : A) → r ≡ ok a → next a ≢ err e)
    → (r >>= next) ≢ err e
>>=-ne-err (err f) next e first after = λ h. first (cc)
>>=-ne-err (ok a) next e first after = after a refl

-- A chain whose first step succeeds is what comes after it.
pub >>=-ok {ℓ κ μ} :
    {E : Type ℓ} {A : Type κ} {B : Type μ} (r : Result E A) (next : A → Result E B) (a : A)
    → r ≡ ok a
    → (r >>= next) ≡ next a
>>=-ok r next a e = rw e refl

pub Result-cases {ℓ κ} :
    {E : Type ℓ} {A : Type κ} (r : Result E A) → ((a : A) × (r ≡ ok a)) ⊎ ((e : E) × (r ≡ err e))
Result-cases (ok a) = inl (a, refl)
Result-cases (err e) = inr (e, refl)
