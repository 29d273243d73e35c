-- ===== src/Common/Outcome.antt =====
-- Code that may raise: a value, or the error that names the statement that raised it.
use mathlib.Core.Option.{Option, some}
use mathlib.Core.Path.{◌≡◌, refl}
use mathlib.Core.Bool.{Bool, true, false, not}

pub data Result (E A : Type 0) : Type 0 where
  err : E → Result E A
  ok : A → Result E A

infixl 5 ◌>>=◌ ◌>>◌
-- The rest of the code runs on the value, unless something was raised before.
abbrev pub ◌>>=◌ : {E A B : Type 0} → Result E A → (A → Result E B) → Result E B
err raised >>= rest = err raised
ok value >>= rest = rest value

abbrev pub ◌>>◌ : {E B : Type 0} → Result E (Unit {0}) → Result E B → Result E B
test >> rest = test >>= λ _. rest

-- `if test: raise error`
abbrev pub raise_if : {E : Type 0} → Bool → E → Result E (Unit {0})
raise_if false raised = ok tt
raise_if true raised = err raised

-- Inversion of a successful sequence, for proofs in which the parts stay shut.
pub >>=-eq-ok :
    {E A B : Type 0} (first : Result E A) (rest : A → Result E B) {last : B}
    → (first >>= rest) ≡ ok last
    → (value : A) × (first ≡ ok value) × (rest value ≡ ok last)
>>=-eq-ok (err raised) rest h = cc
>>=-eq-ok (ok value) rest h = (value, refl, h)

pub >>-eq-ok :
    {E B : Type 0} (test : Result E (Unit {0})) (rest : Result E B) {last : B}
    → (test >> rest) ≡ ok last
    → (test ≡ ok tt) × (rest ≡ ok last)
>>-eq-ok (err raised) rest h = cc
>>-eq-ok (ok tt) rest h = (refl, h)

pub raise_if-eq-ok :
    {E : Type 0} (test : Bool) (raised : E) → raise_if test raised ≡ ok tt → test ≡ false
raise_if-eq-ok false raised h = refl
raise_if-eq-ok true raised h = cc

pub raise_if-not-eq-ok :
    {E : Type 0} (test : Bool) (raised : E) → raise_if (not test) raised ≡ ok tt → test ≡ true
raise_if-not-eq-ok false raised h = cc
raise_if-not-eq-ok true raised h = refl

pub ok_injective : {E A : Type 0} {a b : A} → ◌≡◌ {A = Result E A} (ok a) (ok b) → a ≡ b
ok_injective h = cc

pub some_injective : {A : Type 0} {a b : A} → ◌≡◌ {A = Option A} (some a) (some b) → a ≡ b
some_injective h = cc
