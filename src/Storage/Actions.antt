-- ===== src/Storage/Actions.antt =====
-- Methods that read and write a state and may raise: what was written stays written.
use mathlib.Core.Path.{subst}
use ocsf_forge.Prelude.{◌≡◌, refl, sym, Result, ok, raise, ok-injective}

abbrev pub Action : Type 0 → Type 0 → Type 0 → Type 0
Action S E A = S → S × Result E A

abbrev pub pure : {S E A : Type 0} → A → Action S E A
pure a s = (s, ok a)

abbrev pub fail : {S E A : Type 0} → E → Action S E A
fail e s = (s, raise e)

abbrev pub lift_result : {S E A : Type 0} → Result E A → Action S E A
lift_result r s = (s, r)

-- What follows a call that ended in a state.
abbrev pub then_run : {S E A B : Type 0} → Result E A → S → (A → Action S E B) → S × Result E B
then_run (ok a) s f = f a s
then_run (raise e) s f = (s, raise e)

infixl 5 ◌>>=◌ ◌>>◌
abbrev pub ◌>>=◌ : {S E A B : Type 0} → Action S E A → (A → Action S E B) → Action S E B
◌>>=◌ m f s = then_run (m s).1 (m s).0 f

abbrev pub ◌>>◌ : {S E B : Type 0} → Action S E (Unit {0}) → Action S E B → Action S E B
m >> k = m >>= λ _. k

-- A sequence that answers has answered at each step.
pub >>=-answers :
    {S E A B : Type 0} (m : Action S E A) (f : A → Action S E B) (s : S) (b : B)
    → ((m >>= f) s).1 ≡ ok b
    → (a : A) × ((m s).1 ≡ ok a) × ((f a (m s).0).1 ≡ ok b) × (((m >>= f) s).0 ≡ (f a (m s).0).0)
>>=-answers {S} {E} {A} {B} m f s b h = from (m s).1 h
  where
    from :
        (r : Result E A)
        → (then_run r (m s).0 f).1 ≡ ok b
        → (a : A) × (r ≡ ok a)
          × ((f a (m s).0).1 ≡ ok b)
          × ((then_run r (m s).0 f).0 ≡ (f a (m s).0).0)
    from (ok a) k = (a, refl, k, refl)
    from (raise e) k = cc

-- What every call keeps, a sequence keeps.
pub >>=-keeps :
    {S E A B : Type 0} (P : S → Type 0) (m : Action S E A) (f : A → Action S E B) (s : S)
    → P (m s).0
    → ((a : A) → (m s).1 ≡ ok a → P (m s).0 → P (f a (m s).0).0)
    → P ((m >>= f) s).0
>>=-keeps {S} {E} {A} {B} P m f s p q = from (m s).1 refl
  where
    from : (r : Result E A) → (m s).1 ≡ r → P (then_run r (m s).0 f).0
    from (ok a) e = q a e p
    from (raise x) e = p

-- If the call returns, what it returns and leaves has the property.
pub record Ends {S E A : Type 0} (Q : S → A → Type 0) (m : Action S E A) (s : S) : Type 0 where
  pub ends : (a : A) → (m s).1 ≡ ok a → Q (m s).0 a

pub Ends-pure :
    {S E A : Type 0} (Q : S → A → Type 0) (a : A) (s : S) → Q s a → Ends {E = E} Q (pure a) s
Ends-pure Q a s q = record { ends = λ b e. subst (Q s) (ok-injective e) q }

pub Ends-then :
    {S E A B : Type 0} {Q : S → B → Type 0} (m : Action S E A) {f : A → Action S E B} {s : S}
    → ((a : A) → (m s).1 ≡ ok a → Ends Q (f a) (m s).0)
    → Ends Q (m >>= f) s
Ends-then {S} {E} {A} {B} {Q} m {f} {s} h = record {
  ends = λ b k.
      let (a, answered, rest, state) = >>=-answers m f s b k in
      subst (λ x. Q x b) (sym state) ((h a answered).ends b rest);
}
