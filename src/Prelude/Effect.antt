-- ===== src/Prelude/Effect.antt =====
-- Code that awaits effects: an action passes a state on and returns a value or throws an error.
use mathlib.Core.Path.{◌≡◌, refl}
use mathlib.Core.Logic.{◌⊎◌, inl, inr}

pub data Outcome (E A : Type 0) : Type 0 where
  returned : A → Outcome E A
  threw : E → Outcome E A

pub returned-injective :
    {E A : Type 0} {a b : A} → ◌≡◌ {A = Outcome E A} (returned a) (returned b) → a ≡ b
returned-injective h = cc

-- A case split that keeps the equation.
pub Outcome-cases :
    {E A : Type 0} (o : Outcome E A) → ((a : A) × (o ≡ returned a)) ⊎ ((e : E) × (o ≡ threw e))
Outcome-cases (returned a) = inl (a, refl)
Outcome-cases (threw e) = inr (e, refl)

-- A call that may throw, and the rest of the code on its value.
abbrev pub and_then : {E A B : Type 0} → Outcome E A → (A → Outcome E B) → Outcome E B
and_then (returned a) f = f a
and_then (threw e) f = threw e

abbrev pub Action : Type 0 → Type 0 → Type 0 → Type 0
Action S E A = S → Outcome E A × S

abbrev pub pure : {S E A : Type 0} → A → Action S E A
pure a s = (returned a, s)

abbrev pub throw : {S E A : Type 0} → E → Action S E A
throw e s = (threw e, s)

abbrev pub of_outcome : {S E A : Type 0} → Outcome E A → Action S E A
of_outcome o s = (o, s)

abbrev pub modify : {S E : Type 0} → (S → S) → Action S E (Unit {0})
modify f s = (returned tt, f s)

-- What follows an awaited step: on the value, or nothing more after a throw.
abbrev pub continue : {S E A B : Type 0} → (A → Action S E B) → Outcome E A → Action S E B
continue f (returned a) s = f a s
continue f (threw e) s = (threw e, s)

infixl 5 ◌>>=◌ ◌>>◌
abbrev pub ◌>>=◌ : {S E A B : Type 0} → Action S E A → (A → Action S E B) → Action S E B
◌>>=◌ m f s = continue f (m s).0 (m s).1

abbrev pub ◌>>◌ : {S E B : Type 0} → Action S E (Unit {0}) → Action S E B → Action S E B
m >> k = m >>= λ _. k

-- `try { m } catch (e) { h(e) }` with the rest of the code in `k`.
abbrev pub branch :
    {S E F A B : Type 0} → (A → Action S F B) → (E → Action S F B) → Outcome E A → Action S F B
branch k h (returned a) s = k a s
branch k h (threw e) s = h e s

abbrev pub try_catch :
    {S E F A B : Type 0} → Action S E A → (A → Action S F B) → (E → Action S F B) → Action S F B
try_catch m k h s = branch k h (m s).0 (m s).1
