-- ===== src/Prelude/Errors.antt =====
-- Python's exceptions as values: a call returns, or raises an error of the component's own type.
use mathlib.Core.Path.{◌≡◌, refl, subst}
use mathlib.Core.Logic.{◌⊎◌, inl, inr}
use mathlib.Core.Bool.{Bool, true, false}

pub data Result {ℓ κ} (E : Type ℓ) (A : Type κ) : Type (ℓ ⊔ κ) where
  ok : A → Result E A
  raise : E → Result E A

infixl 5 ◌>>=◌ ◌>>◌
abbrev pub ◌>>=◌ {ℓ κ μ} :
    {E : Type ℓ} {A : Type κ} {B : Type μ} → Result E A → (A → Result E B) → Result E B
ok a >>= f = f a
raise e >>= f = raise e

abbrev pub ◌>>◌ {ℓ κ} : {E : Type ℓ} {B : Type κ} → Result E (Unit {0}) → Result E B → Result E B
m >> k = m >>= λ _. k

-- `if b: raise e`.
abbrev pub raise_if {ℓ} : {E : Type ℓ} → Bool → E → Result E (Unit {0})
raise_if true e = raise e
raise_if false e = ok tt

abbrev pub map_ok {ℓ κ μ} :
    {E : Type ℓ} {A : Type κ} {B : Type μ} → (A → B) → Result E A → Result E B
map_ok f (ok a) = ok (f a)
map_ok f (raise e) = raise e

pub Result-cases {ℓ κ} :
    {E : Type ℓ} {A : Type κ} (r : Result E A) → ((a : A) × (r ≡ ok a)) ⊎ ((e : E) × (r ≡ raise e))
Result-cases (ok a) = inl (a, refl)
Result-cases (raise e) = inr (e, refl)

pub ok-injective {ℓ κ} :
    {E : Type ℓ} {A : Type κ} {a b : A} → ◌≡◌ {A = Result E A} (ok a) (ok b) → a ≡ b
ok-injective h = cc

pub raise-injective {ℓ κ} :
    {E : Type ℓ} {A : Type κ} {a b : E} → ◌≡◌ {A = Result E A} (raise a) (raise b) → a ≡ b
raise-injective h = cc

-- What a successful check says, and what runs after it.
pub raise_if-ok {ℓ κ} :
    {E : Type ℓ} {A : Type κ} (b : Bool) (e : E) (k : Result E A) {a : A}
    → (raise_if b e >> k) ≡ ok a
    → (b ≡ false) × (k ≡ ok a)
raise_if-ok true e k h = cc
raise_if-ok false e k h = (refl, h)

pub >>=-ok {ℓ κ μ} :
    {E : Type ℓ} {A : Type κ} {B : Type μ} (m : Result E A) (f : A → Result E B) {b : B}
    → (m >>= f) ≡ ok b
    → (a : A) × (m ≡ ok a) × (f a ≡ ok b)
>>=-ok (ok a) f h = (a, refl, h)
>>=-ok (raise e) f h = cc

pub >>=-raise {ℓ κ μ} :
    {E : Type ℓ} {A : Type κ} {B : Type μ} (m : Result E A) (f : A → Result E B) {e : E}
    → (m >>= f) ≡ raise e
    → (m ≡ raise e) ⊎ ((a : A) × (m ≡ ok a) × (f a ≡ raise e))
>>=-raise (ok a) f h = inr (a, refl, h)
>>=-raise (raise x) f h = inl cc

-- Whatever the call returns, if it returns, has the property.
pub record Yields {ℓ κ μ} {E : Type ℓ} {A : Type κ} (Q : A → Type μ) (r : Result E A)
    : Type (ℓ ⊔ κ ⊔ μ) where
  pub yields : (a : A) → r ≡ ok a → Q a

pub Yields-ok {ℓ κ μ} :
    {E : Type ℓ} {A : Type κ} (Q : A → Type μ) (a : A) → Q a → Yields {E = E} Q (ok a)
Yields-ok Q a q = record { yields = λ b e. subst Q (ok-injective e) q }

pub Yields-then {ℓ κ μ ν} :
    {E : Type ℓ} {A : Type κ} {B : Type μ} {Q : B → Type ν} (m : Result E A) {f : A → Result E B}
    → ((a : A) → m ≡ ok a → Yields Q (f a))
    → Yields Q (m >>= f)
Yields-then (ok a) h = h a refl
Yields-then (raise e) h = record { yields = λ b k. absurd cc }

-- `if b: raise e`, and what follows.
pub Yields-guard {ℓ κ μ} :
    {E : Type ℓ} {A : Type κ} {Q : A → Type μ} (b : Bool) (e : E) {k : Result E A}
    → (b ≡ false → Yields Q k)
    → Yields Q (raise_if b e >> k)
Yields-guard true e h = record { yields = λ a k. absurd cc }
Yields-guard false e h = h refl

pub Yields-check {ℓ κ} :
    {E : Type ℓ} {P : Type κ} (b : Bool) (e : E) → (b ≡ false → P) → Yields (λ _. P) (raise_if b e)
Yields-check true e h = record { yields = λ a k. absurd cc }
Yields-check false e h = record { yields = λ a k. h refl }
